-- ===== src/Tests.antt =====
-- Runs of the code on concrete inputs, for src/faststack.c, src/sexp_memory.c, src/parser.c and
-- src/sexp_ops.c.
mod Values
mod Storage
mod Wrapping
mod Telling
mod Parsing
mod Expressions
mod Rejecting
mod Faults
mod Printing
