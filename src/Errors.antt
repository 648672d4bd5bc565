-- ===== src/Errors.antt =====
-- src/sexp_errors.h: the error codes of the library.
pub data Errcode : Type 0 where
  err_ok err_memory err_badform err_badcontent err_nullstring err_io err_io_empty : Errcode
  err_mem_limit err_buffer_full err_bad_param err_bad_stack err_unknown_state : Errcode
  err_incomplete err_bad_constructor : Errcode
