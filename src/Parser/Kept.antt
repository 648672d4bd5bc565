-- ===== src/Parser/Kept.antt =====
-- What a call of the parser of src/parser.c leaves alone in the continuation, whether it falls through
-- or returns: the buffer, the mode, and that no more binary data is read than expected.
pub mod Blocks
mod Steps
pub mod Call
