-- ===== src/DiceServ.antt =====
-- DiceServ: expressions with dice, from the text that a user types to the numbers that are shown.
pub mod Types
pub mod Chars
pub mod Fix
pub mod Check
pub mod Tokens
pub mod Platform
pub mod Results
pub mod Postfix
pub mod Functions
pub mod Evaluate
pub mod Data
pub mod Output
pub mod Roller
pub mod Stacks
pub mod Operands
pub mod Expr
pub mod Precedence
pub mod Pending
pub mod Conversion
pub mod ShuntingYard
pub mod Sums
pub mod Sets
pub mod Value
pub mod Evaluation
pub mod Rounds
pub mod Grouping
pub mod Calls
pub mod Alignment
pub mod Places
pub mod Commands
pub mod Fitting
