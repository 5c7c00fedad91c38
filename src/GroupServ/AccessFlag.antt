-- ===== src/GroupServ/AccessFlag.antt =====
-- `enum class GSAccessFlags` of GroupServ/groupserv.h.
use anope_mods_contrib.Base.{ℕ}

abbrev pub none : ℕ
none = 0

abbrev pub founder : ℕ
founder = 1

abbrev pub flags : ℕ
flags = 2

abbrev pub aclview : ℕ
aclview = 4

abbrev pub memo : ℕ
memo = 8

abbrev pub chanaccess : ℕ
chanaccess = 16

abbrev pub vhost : ℕ
vhost = 32

abbrev pub set : ℕ
set = 64

abbrev pub invite : ℕ
invite = 128

abbrev pub ban : ℕ
ban = 256

abbrev pub all : ℕ
all = 255

abbrev pub all_nofounder : ℕ
all_nofounder = 254
