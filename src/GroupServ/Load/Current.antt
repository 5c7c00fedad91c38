-- ===== src/GroupServ/Load/Current.antt =====
-- The key=value reader of LoadDB: one line at a time into temporary tables, which are made into
-- groups and invitations at the end.
mod Fields
mod Finish
pub mod Kept
pub use Fields.{Reading}
unfoldable pub use Fields.{until_nul, read_pair, read_line, read_lines}
unfoldable pub use Finish.{load_current}
