-- ===== src/RoundTrip.antt =====
-- The parser of src/parser.c on the printed text of an s-expression.
pub mod Conf
pub mod Leads
pub mod Print
pub mod Nesting
pub mod Texts
pub mod Elements
pub mod Quotes
pub mod Lists
pub mod Closing
pub mod Trees
pub mod NulFree
pub mod Start
pub mod Whole
pub mod Resumed
