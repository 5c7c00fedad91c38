-- ===== src/GroupServ/Reload.antt =====
-- OnReload: the settings of the configuration, and the first load of the database.
use anope_mods_contrib.Base.{
  ℕ, Bool, true, false, Option, none, some, [], Str, codes, if◌then◌else◌,
}
use anope_mods_contrib.Base.Order.{text_order}
use anope_mods_contrib.Anope.{Anope, Env}
use anope_mods_contrib.GroupServ.AccessFlag
use anope_mods_contrib.GroupServ.Types.{Core, Config, Disk}
use anope_mods_contrib.GroupServ.Text.{is_empty}
use anope_mods_contrib.GroupServ.Flags.{parse_flags}
use anope_mods_contrib.GroupServ.Load.{load_db}

-- `Configuration::Block` of a module: `Get` by a name and a default, as text, number and switch.
pub record Block : Type 0 where
  pub text : Str → Str → Str
  pub number : Str → Str → ℕ
  pub switch : Str → Str → Bool

-- `Configuration::Conf::GetModule` of this module and by name, and `BotInfo::Find(nick, true)`.
pub record Conf : Type 0 where
  pub own_module : Block
  pub get_module : Str → Block
  pub find_bot : Str → Option Str

client_of : Block → Str
client_of block = block.text (codes "client") []

-- The first of three blocks that names a client.
unfoldable pub module_block : Conf → Block
unfolding client_of
module_block conf =
    let named = conf.get_module (codes "groupserv") in
    if is_empty (client_of conf.own_module)
    then (if is_empty (client_of named) then conf.get_module (codes "groupserv.so") else named)
    else conf.own_module

module _ ⦃lib : Anope⦄ where
  unfoldable pub read_config : Block → Config
  read_config block = record {
    admin_priv = block.text (codes "admin_priv") (codes "groupserv/admin");
    auspex_priv = block.text (codes "auspex_priv") (codes "groupserv/auspex");
    exceed_priv = block.text (codes "exceed_priv") (codes "groupserv/exceed");
    maxgroups = block.number (codes "maxgroups") (codes "5");
    maxgroupacs = block.number (codes "maxgroupacs") (codes "0");
    maxgroupmemos = block.number (codes "maxgroupmemos") (codes "50");
    enable_open_groups = block.switch (codes "enable_open_groups") (codes "yes");
    opers_only = block.switch (codes "opers_only") (codes "no");
    default_joinflags =
        parse_flags (block.text (codes "default_joinflags") []) false AccessFlag.none;
    default_vhostauto = block.switch (codes "vhostauto_default") (codes "no");
  }

  -- `none` where OnReload throws.
  unfoldable pub on_reload : Env → Conf → Core → Option Core
  unfolding module_block client_of read_config load_db
  on_reload env conf core =
      let block = module_block conf in
      let nick = client_of block in
      let bot : Option Str = if is_empty nick then none else conf.find_bot nick in
      elim bot [
        | none ↦ none
        | some bi ↦
            let set = record core { config = read_config block; bot = some bi } in
            some (if core.initialized then set else record (load_db env set) { initialized = true })
      ]

  -- The object as it is built, with the files that are on disk.
  abbrev pub unloaded : Config → Disk → Core
  unloaded config disk = record {
    config = config;
    bot = none;
    groups = [];
    invites = [];
    drop_challenges = [];
    initialized = false;
    disk = disk;
  }
