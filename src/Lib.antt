-- ===== src/Lib.antt =====
-- Verification of the small, fast s-expression library: src/*.c of the repository.
--
-- Parts and files
--   Errors       src/sexp_errors.h: the error codes.
--   Memory       src/sexp_memory.c: sexp_malloc and its kin, with the counter of the limited build.
--   FastStack    src/faststack.c: the stack with recycled levels that the parser works on.
--   Sexp         src/sexp.h: the elements, and the tree that a chain of elements represents.
--   Cache        src/parser.c: the caches of elements and parse data, the sizes of the buffers.
--   Parser       src/parser.c: cparse_sexp and init_continuation. Base has the continuation and the
--                loop's variables, Actions the blocks that the states share, Structure, Atoms,
--                Quoted and Binary the states, Step the switch, Loop the loop and what follows it,
--                Entry the calls. Progress and Total are about the number of rounds, Kept
--                about what a call leaves alone.
--   Build        src/sexp.c: the constructors of elements, and destroy_sexp. Laws is about what they
--                return, Storage about the memory that they give back.
--   Wrappers     src/parser.c: parse_sexp, iparse_sexp and destroy_continuation. Total is about their
--                termination, Whole about one expression, Sequence about many.
--   Events       src/event_temp.c: eparse_sexp, the parser that only calls handlers. Binary has its
--                states for binary data, Loop the switch and the loop; Progress and Total are about
--                the number of rounds, Alike about the two parsers side by side.
--   FileInput    src/io.c: init_iowrap, destroy_iowrap and read_one_sexp, with the system call read as a
--                parameter. Stopping is about the end of what was read, Calls and Chunks about one
--                call, Sequence about many.
--   SexpOps      src/sexp_ops.c: find_sexp, bfs_find_sexp, sexp_list_length, copy_sexp.
--   CString      src/cstring.c: strings that grow.
--   Print        src/sexp.c: print_sexp_cstr, its walk, and Call, which stands round it. Writing is
--                about what a round writes, Walk and Text about the walk, Whole about the call,
--                Reread about the parser on its result. Buffer is print_sexp, which writes into a buffer
--                of fixed size, and Pcont print_pcont of src/parser.c.
--   RoundTrip    the parser on printed expressions.
--   Rejects      the parser at an unmatched closing parenthesis.
--   Safety       the parser's rounds on input without backslashes: Shapes is about the stack, Starts,
--                Texts, Quotes and Lists about the states, Parse about the whole call.
--   Tests        runs on concrete inputs.
--
-- How they interact
--   Every part works on a Heap: the parser's state World holds one beside the caches and the
--   buffer sizes, and the events that a client's handlers were told of, last first. A request for
--   memory is granted or refused by the field `refuses`, any function, and by the limit.
--   A function that may return from the middle of the loop is an Outcome: it falls through, returns
--   a continuation, fails an assert, or touches memory that is not the parser's (fault).
--
-- Representation
--   Machine integers are ℕ with the wrap-around written out where a run can reach it. An int that
--   is counted, as the height of a stack (which the caches of elements, the printers and both
--   parsers count) and the depth of the printers, and the results of the printers, are given by
--   their 32 bits: from 2^31 on they are negative, and a stack of so many levels is one that pop
--   takes for empty. Counting past the largest int, which C leaves open, is taken to give the
--   smallest one. Sums of sizes in the growing strings wrap at 2^64. The new size of a parser's
--   value buffer is written without the wrap, which is the code's where sexp_val_grow_size and the
--   buffer are below 2^63. A buffer of bytes is a list and positions are offsets into it; reading
--   outside of it is a fault. The value buffer is kept last byte first, so that storing a byte is
--   one constructor. The stack's chain of levels is a zipper at its top, and a buffer that is
--   printed into one at `b`.
--
-- Fuel
--   The loop of cparse_sexp runs on fuel, four rounds for each byte of the buffer and four more: a
--   round either goes on in the buffer or enters a state of lower rank, of which there are four. The
--   loop of print_sexp_cstr runs on one round for each value, two for each list, at its parentheses,
--   and one more for the end. That of print_sexp has one more for each byte of the buffer, for levels
--   that cannot be pushed.
--   The loop of read_one_sexp runs on fuel, one unit for each read; the theorem on it holds for any.
--
-- Not modelled
--   The build without caches, which ./configure makes unless it is told otherwise: it defines
--   _NO_MEMORY_MANAGEMENT_, and then sexp_t_allocate, sexp_t_deallocate, sexp_cleanup, pd_allocate and
--   pd_deallocate have other bodies, which call sexp_malloc and sexp_free alone (src/parser.c, lines 99
--   to 108, 160 to 168, 205 to 207, 237 to 243 and 294 to 298). What is modelled is the build with
--   caches. A cache is taken to hold fewer than 2^31 elements: that pop returns NULL for one with more,
--   which the code follows, is not modelled.
--   The branch of eparse_sexp for a NULL continuation, which cparse_sexp never takes; the output for a
--   graph viewer (src/sexp_vis.c), and the clients under examples, tests, python and ruby.
pub mod Prelude
pub mod Errors
pub mod Memory
pub mod FastStack
pub mod Sexp
pub mod Cache
pub mod Parser
pub mod RoundTrip
pub mod Rejects
pub mod Safety
pub mod Build
pub mod CString
pub mod Print
pub mod SexpOps
pub mod Wrappers
pub mod Events
pub mod FileInput
pub mod Tests
