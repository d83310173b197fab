-- ===== src/Lib.antt =====
-- Verification of routines of iClaustron: the data structures and parsers that its API, its process
-- controller and its cluster manager are built on.
--
-- Parts and files. A part is one module with the definitions, whose children hold the proofs; each Tests
-- module runs the definitions at concrete values.
--   Base             shared names: lists under native numbers, tests, `Outcome` (a value, an abort, or
--                    undefined behaviour), facts about bits.
--   Bitmap           util/ic_bitmap.c, include/ic_bitmap.h. `ic_bitmap_set_bit` is `bitmap_set_bit`, the
--                    macro of the build without DEBUG_BUILD `macro_set_bit`, and so on. Laws has the proofs.
--   HashTable        util/ic_hashtable.c, include/ic_hashtable_private.h. A table has its hash and
--                    equality functions as fields; a chain is a list. Hash has the hash and key functions;
--                    Valid says what a table of the library is; Place and Lists are about chains; Expand,
--                    Insert and Remove each about one operation, against the view of the table as a map.
--   HashTable.Iterator  util/ic_hashtable_itr.c. The current element is the rest of its chain.
--   SockBuf          comm/ic_sock_buf.c, include/ic_sock_buf.h. Pages are records on a heap of addresses.
--                    Chain relates the `next` pointers to a list; Get, Return and Grow follow the operations.
--                    Wait is about the routine that waits for a page.
--   Base64           protocol/ic_base64.c. Table is about the two tables, Encode about the text, RoundTrip and
--                    LineEnds about the decoder on it.
--   ConnectString    util/ic_parse_connectstring.c. Steps has the invariant of the parser's
--                    loop, OneHost a string without separators.
--   MemoryContainer  util/ic_mc.c, util/ic_mc_int.h. Addresses are numbers; Alloc is about the regions.
--   LinkedList       include/ic_linked_list.h, the macros for lists with one and with two links.
--   Strings          util/ic_string.c, the texts of numbers, the appending of strings and two searches. Decimal
--                    has the reading of a decimal text.
--   DynArray         util/ic_dyn_array.c, the simple dynamic array; the chain of buffers is a list. Flat has the
--                    view as one list of bytes, Insert the loop over the buffers, Append the whole insert, Enough
--                    the memory it needs, Disk the writing to a file.
--   ThreadPool       util/ic_threadpool.c, util/ic_threadpool_int.h: the thread objects with their two lists. Lists says what
--                    a pool is between two routines; Free, Remove, Stopped and Join are about the lists, Links and
--                    Relink about their links.
--   ThreadPool.Threads  the creation of a pool (Create), the start of a thread (Start), and a thread from its start
--                    until it is joined (Cycle). What other threads do during a wait is a parameter.
--   ThreadPool.Signals  the waits of threads for each other and the stop flags; Handshake has the
--                    turns of a starting thread and its starter, Agreement their phases.
--   ConfigReader     util/ic_config_reader.c, the numbers of configuration files (Number).
--   ConfigReader.Texts  the directory of a file name, and numbers at the front of a text.
--   ConfigReader.Lines  one line of such a file; Keys is about lines with a key and a value.
--   Lexer            util/ic_lex_support.c; Symbols is about the hash function that is chosen for the symbols.
--   Protocol         comm/ic_protocol_support.c, lines on a connection. Frame says how the buffer and what is to come are
--                    one stream; Portions is about the rounds of a receive, Line about one line, Timeout about a
--                    receive that fails.
--   Protocol.Receive the routines that take a line apart: Stream for a given text, Answers for "Ok" and "Error", Numbers.
--   Protocol.Send    the routines that send lines: Texts is about the text of a number, Appends about what is sent.
--   PollSet          comm/ic_poll_set.c, comm/ic_poll_set_int.h: the slots of a poll set (Slots), adding and removing
--                    (Members), a failing epoll_ctl (Failures) and a scan of what is ready (Scan).
--   PollSet.Polling  the poll set of a build with poll: Padded is about arrays without a gap, Mirror and Removal about the
--                    array of file descriptors beside the members, Checks about what poll reports.
--
-- The hash table and the bitmaps are used by all other parts of the program, the memory container keeps what the
-- connect string parser and the configuration readers return, and the pools of pages feed the threads that send
-- and receive. The parser asks a memory container: it has the answers as a parameter, so what is shown holds for each way in
-- which memory can run out. The answer of epoll_wait or of poll gives the order in which a thread
-- takes up its connections. The protocol's lines have numbers in the text that Strings gives, and what is sent is
-- what the other side reads.
--
-- State and calls. A routine is a function from the state before to the state after and its return value. What
-- malloc, calloc, realloc and the creation of a mutex answer is an argument. A routine that takes a mutex is one
-- step, and where a routine waits for a condition, what the other threads do meanwhile is an argument or the
-- routine is cut into the rounds of its loop. A failing `ic_assert` or `ic_require` is `aborted`; an access outside an area is `undefined`,
-- `out_of_area` or `out_of_array`, so a theorem that a routine ends otherwise is one about memory safety.
-- Integers are natural numbers, with the reduction mod 2 ^ 32 or 2 ^ 64 written out where the source relies on it;
-- a shift is a product or a quotient with a power of 2.
--
-- Loops and fuel. Loops over lists and counts are structural. `return_loop` of SockBuf takes fuel, one round for
-- each page and one for the end: the theorems ask for more fuel than pages, which is enough for the pages they
-- are about, and show that a result comes out. `check_threads` of ThreadPool takes one round for each stopped
-- thread and one for the end, and is shown to give a result then. `digits` of Strings takes 64 rounds, and a number of 64 bits has 20
-- decimal digits at most: `guint64_str` is shown to give a result for each of them. The loop of `get_page_wait` takes one round for each reading of the clock,
-- and ends with the first one beyond the limit. The loop of `rec_with_cr` takes one
-- round for each answer of the socket, and the theorems ask for one answer for each byte of the line that has not
-- yet arrived, which is enough where each brings a byte or more.
--
-- Not modelled: the data API and the cluster's protocols, the process controller, the programs, the sockets of
-- connections and the operating system, since they are I/O, scheduling or calls of the operating system and of
-- GLib. The contents of the memory container's buffers are left out; of the poll sets the builds with event ports,
-- kqueue and IO completion; of the dynamic arrays the ordered one and the array of pointers; of the configuration
-- reader the two passes over a file.
pub mod Base
pub mod Bitmap
pub mod HashTable
pub mod SockBuf
pub mod Base64
pub mod ConnectString
pub mod MemoryContainer
pub mod LinkedList
pub mod Strings
pub mod DynArray
pub mod ThreadPool
pub mod ConfigReader
pub mod Lexer
pub mod Protocol
pub mod PollSet
