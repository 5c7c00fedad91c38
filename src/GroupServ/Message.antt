-- ===== src/GroupServ/Message.antt =====
-- What the handlers send: one constructor for each format string of the source, with its arguments.
use anope_mods_contrib.Base.{ℕ, Bool, true, false, List, [], ◌∷◌, Str}
use anope_mods_contrib.GroupServ.Types.{Core}

pub data Message : Type 0 where
  -- "Group %s does not exist." and "The group %s does not exist."
  no_group the_group_missing : Str → Message
  access_denied read_only_mode : Message
  -- "You must be identified to ..."
  identify_to_register identify_to_drop identify_to_list identify_to_join identify_to_invite :
      Message
  identify_to_change_flags identify_to_set identify_to_use identify_to_listchans : Message
  syntax_register syntax_groupname syntax_vhost syntax_open syntax_public syntax_vhostauto : Message
  already_exists : Str → Message
  opers_only too_many_groups : Message
  registered : Str → Str → Message
  will_destroy dropped : Str → Message
  to_confirm : Str → Str → Str → Message
  invalid_key : Message
  banned_from already_member not_open list_full now_member : Str → Message
  not_an_account : Str → Message
  is_already_member : Str → Str → Message
  other_invitation : Str → Message
  invited : Str → Str → Message
  you_have_been_invited : Str → Str → Str → Message
  may_not_change_founder last_founder : Message
  removed_from : Str → Str → Message
  now_has_flags : Str → Str → Str → Message
  renamed : Str → Str → Message
  description_set url_set email_set channel_set : Str → Message
  joinflags_cleared : Str → Message
  joinflags_minus : Message
  joinflags_set : Str → Str → Message
  vhost_cleared : Str → Message
  no_vhosts only_variables no_vident vident_error vhost_error : Message
  vhost_too_long : ℕ → Message
  vhost_set : Str → Str → Message
  open_disabled : Message
  now_open no_longer_open now_public no_longer_public auto_approved need_approval : Str → Message
  unknown_setting : Message
  memo_empty invalid_memo : Message
  too_many_memos : Str → ℕ → Message
  memo_sent no_memos memos_for : Str → Message
  memo_line : ℕ → Str → ℕ → Message
  memo_title : ℕ → Str → Message
  memo_from memo_text : Str → Message
  memo_date : ℕ → Message
  memo_deleted : ℕ → Str → Message
  info_title info_flags info_founders info_description info_channel : Str → Message
  info_url info_email info_vhost info_joinflags : Str → Message
  info_registered info_entries : ℕ → Message
  end_of_info flags_heading ruler : Message
  flags_line : ℕ → Str → Str → Message
  end_of_flags : Str → Message
  groups_matching group_line no_match : Str → Message
  matches : ℕ → Str → Message
  listchans_unavailable : Message
  channels_of channel_line : Str → Message
  no_channels : Message
  channels_shown : ℕ → Message

-- A reply to the command's sender, or a notice to the user with that UID.
pub data Output : Type 0 where
  reply : Message → Output
  send_to : Str → Message → Output

-- The object after a call, what the call returns, and what it sends.
abbrev pub Outcome : Type 0
Outcome = Core × Bool × List Output

-- `Reply(...); return false;` and `Reply(...); return true;`
abbrev pub refuse : Message → Core → Outcome
refuse m core = (core, false, reply m ∷ [])

abbrev pub accept : Message → Core → Outcome
accept m core = (core, true, reply m ∷ [])
