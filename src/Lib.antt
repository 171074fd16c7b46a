-- ===== src/Lib.antt =====
-- sc_open drives factory equipment by programs of SECS messages, over a serial line (SECS-I) or a
-- TCP connection (HSMS). This library models the two transports and what they share, and the core of
-- the language: tokens, labels, expressions, variables, numbers and buffers.
--
-- The parts and how they meet. A statement of a user's program sends a message: the message is
-- encoded, gets system bytes (source/secs.c), is cut into blocks and sent with a handshake for each
-- (source/send_secs.c), or is framed and sent whole (source/send_hsms.c). If it wants a reply, a
-- transaction is opened (source/secs.c) and the place in the program kept. A message that arrives
-- (source/recv_secs.c, source/recv_hsms.c) is put together and decoded; a reply is matched with
-- the open transactions and the program resumed there, a primary message sets the system bytes of
-- the answer. All waiting is under the protocol timers (source/proto_timers.c), whose alarm jumps
-- out of the read.
--
-- A program is read into a stream of tokens (source/tokens.c, source/program.c), its labels are put
-- into a table (source/label.c), and its statements evaluate expressions (source/expression.c) over
-- variables (source/tmp_variables.c). Texts and messages are kept in buffers that grow
-- (source/buffer.c, source/binary_buffer.c).
--
-- Files and code:
--   Prelude        shared names, Boolean tests on numbers, lists over the native numbers
--   Bytes          source/swap.c, headers/include.h: swap(), integers in wire order
--   Secs           source/secs.c, headers/secs.h: open transactions, checksum, system bytes
--   Line           source/io.c: my_readc(), my_readx(), my_write(), my_writec(), and the effect of
--                  start_proto_timer(), stop_proto_timer() and sigsetjmp() on the protocol code
--   SecsI/Recv     source/recv_secs.c: recv_secsI(), completion()
--   SecsI/Send     source/send_secs.c: send_secsI()
--   SecsI/Message  source/send_secs.c: send_secsII(); source/recv_secs.c: recv_secs()
--   Hsms           source/send_hsms.c: send_hsmsI(); source/recv_hsms.c: recv_hsmsI()
--   Hsms/Control   source/recv_hsms.c: recv_hsms(); source/send_hsms.c: send_hsmsII();
--                  source/hsms.c: client_connect()
--   ProtoTimers    source/proto_timers.c: the table of timers, the alarm and its handler
--   Timers         source/timers.c: start_timer(), stop_timer(), calc_min_time(), timer_handler()
--   Items          source/secs_encode_sml.c: set_size_bytes(), STORE_DATA;
--                  source/secs_decode_sml.c: the head of the loop of secs_decode()
--   Items/Format   headers/secs.h: the codes of the formats
--   Items/Tree     the items of a message as a tree, and its bytes
--   Items/Elements source/secs_encode_sml.c: the data of an item in secs_encode()
--   Items/Encode   source/secs_encode_sml.c: the second loop of secs_encode(),
--                  get_num_list_elements(); Print has the items as a program writes them
--   Items/Entries  source/secs_decode_sml.c: the variables of an item in secs_decode()
--   Items/Meaning  the variables that the items of a program mean, for the theorem in Items/EndToEnd
--   Items/Decode   source/secs_decode_sml.c: secs_decode(); Spec says what it is to give
--   Statements     source/if.c: cmd_if(), cmd_else(), cmd_else_if()
--   Statements/Loops  source/while.c: the skipping of cmd_while(); source/break.c: cmd_break_loop()
--   Tokens         source/tokens.c: get_token_type(), get_token_type_function(), show_type(),
--                  is_function(); headers/tokens.h
--   Program        source/program.c: the stored tokens, decode_program_token(),
--                  get_program_token_no_eval(), put_program_token()
--   Labels         source/label.c: label_build_idx_table(), label_put(), label_get()
--   Expression     source/expression.c: expression(), expr(), term(), func(), the queue, solve(),
--                  add_sub_mult_div(), logical_bitwise(), ones_complement(); of solve_function()
--                  the arguments and the functions on texts and integers
--   TmpVariables   source/tmp_variables.c: tmp_variable_put(), tmp_variable_get(),
--                  tmp_variable_add()
--   Variables      source/variables.c: variable_put(), variable_get(), variable_delete();
--                  headers/variables.h
--   Numbers        source/utility.c: my_itoa(), my_utoa(), my_btoh(), my_atobyte(), my_atoi(),
--                  my_atou(); Int has the ints of 32 bits of source/expression.c
--   Buffers        source/buffer.c and source/binary_buffer.c: the operations that write
--
-- The state. A line is the sequence of what its reads will meet (a byte, an error, the alarm of a
-- timer, a pause between pieces), the outcomes of its writes, the bytes written and the running
-- timers. A statement of C is a function of a line that ends with a value, with the return code of
-- the enclosing function, with the jump of a timer or, when nothing is left to read, blocked. The
-- statics of secs.c are a table of transactions and a pair of numbers, passed along. Numbers are
-- natural numbers; a 32-bit value that the code lets wrap has its `% 2 ^ 32` written out.
--
-- A buffer is a block of cells with its counts, where an access outside of the block has no result.
-- The tables of labels and variables are lists; bsearch() of the C library is a parameter with its
-- documented promise, that on an ordered table it finds an entry that compares equal if there is
-- one.
--
-- Fuel. A loop that reads until something comes takes the number of events of the line plus one
-- as fuel; every round takes an event off, so the fuel is not used up. The loops of send_secsII()
-- take a fuel that their theorems bound, and so does cmd_if(), which calls itself. The parser of
-- expressions calls itself on fuel that the number of tokens bounds, and label_build_idx_table()
-- has the length of the program as fuel; both are proved to end within it, as is secs_decode() with
-- a round for each byte. The loop of secs_encode() takes a round for each token. solve() and
-- solve_function() take a fuel that their theorems bound. my_utoa() recurs on the order of the
-- numbers and needs none.
--
-- Not modelled: the close of a connection after a failed read, partial writes, logging, the
-- options (each is an argument where it matters), the tokeniser and preprocessor (source/parse.c,
-- read_it() of source/program.c), the functions of an expression on files, time, variables, floats
-- and the system (an argument of solve_function()), the arithmetic of floats and how the C library
-- reads and prints numbers (arguments), the dumps of the variables and most statements, sockets
-- and ttys, the text of the log that secs_decode() writes, how a float is printed (an argument),
-- the head of a message in secs_encode() with its items of floats, FOR and NEXT between items, and
-- make_log() behind its loop, whose padding is bounded to lists of depth 22; a program of 2 ^ 31
-- bytes or more with labels. What the program that a timer resumes does to the timers, the decoder
-- of a message's body and the service of a message that arrives during a contention are arguments
-- of the functions that call them. malloc() is taken to succeed.
pub mod Prelude
pub mod Bytes
pub mod Secs
pub mod Line
pub mod SecsI
pub mod Hsms
pub mod ProtoTimers
pub mod Items
pub mod Statements
pub mod Timers
pub mod Expression
pub mod TmpVariables
pub mod Variables
pub mod Numbers
pub mod Buffers
pub mod Program
pub mod Labels
pub mod Tokens
