-- ===== src/GroupServ.antt =====
-- GroupServ: account groups such as `!group` with members, access flags, invitations and memos.
pub mod AccessFlag
pub mod GroupFlag
pub mod Types
pub mod Text
pub mod Flags
pub mod Message
pub mod State
pub mod Save
pub mod Load
pub mod Loading
pub mod Register
pub mod Members
pub mod Settings
pub mod Memos
pub mod Show
pub mod Service
pub mod Invariant
pub mod Atomic
pub mod Groups
pub mod Founders
pub mod Joining
pub mod Access
pub mod Authority
pub mod Dropping
pub mod Registering
pub mod MemoBox
pub mod Storing
pub mod Renaming
pub mod JoinFlags
pub mod Reload
