-- ===== src/Parser.antt =====
-- src/parser.c, the continuation-based parser: its state, one function per state of the machine,
-- the loop, and the entry points.
pub mod Base
pub mod Actions
pub mod Vars
pub mod Structure
pub mod Atoms
pub mod Quoted
pub mod Binary
pub mod Step
pub mod Loop
pub mod Frame
pub mod Progress
pub mod Kept
pub mod Entry
pub mod Total
