-- ===== src/GroupServ/GroupFlag.antt =====
-- `enum class GSGroupFlags` of GroupServ/groupserv.h; `openly` is its OPEN.
use anope_mods_contrib.Base.{ℕ}

abbrev pub none : ℕ
none = 0

abbrev pub openly : ℕ
openly = 1

abbrev pub public : ℕ
public = 2

abbrev pub regnolimit : ℕ
regnolimit = 4

abbrev pub acsnolimit : ℕ
acsnolimit = 8

abbrev pub vhostauto : ℕ
vhostauto = 16
