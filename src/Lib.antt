-- ===== src/Lib.antt =====
-- Binkleyforce is a mailer for FidoNet: it calls other mailers, or answers them, exchanges addresses
-- and passwords, and then files. This library models its core and proves what the parts promise.
--
-- The parts, with the files of the program and of this library:
--   * source/bforce/u_crc.c: Crc, with the tables in Crc/Tables. A buffer is a list of bytes, a checksum a
--     number; Crc/Reference divides bit by bit, and Crc/Equivalence, Crc/Xmodem and Crc/Residue use it.
--   * source/bforce/prot_binkp_crypt.c: Crypt. The three keys are a record, and the range of
--     `unsigned long` is an argument, since the platforms differ in it.
--   * source/bforce/u_string.c: Text. A string is the list of its bytes without the last zero; buffers
--     that are too small are cut as the source cuts them. What the program takes of the C library on
--     strings (`atoi`, `isdigit`, `%d`) is there as well, exact beyond the range of `int`.
--   * source/bforce/u_ftn.c: Address, with Address/Parse and Address/Print. The fields are signed.
--   * source/bforce/sess_main.c: Session, the addresses of the other side, passwords and locks. The
--     configuration is a record of the values that are read; `md5_cram_get` and `out_bsy_lock`, which
--     other files define, are arguments; Locks/Outbound/Clean puts the lock of Locks in.
--   * source/bforce/prot_binkp.c and source/bforce/prot_binkp_misc.c: Binkp. Binkp.antt has the state of a
--     session; Binkp/Send is `binkp_getforsend`, with the handshake in Opening and the files in
--     Transfer; Binkp/Receive is `binkp_doreceiveblock`, one function for each message; Binkp/Info and
--     Binkp/Remote read what the messages say; Binkp/Frame is the header of a block and its reading in
--     pieces; Binkp/Loop has the start of a session and the parts of one round of `binkp_loop`.
--   * source/bforce/prot_hydra.c: Hydra, the packets. Hydra.antt has the numbers and the options, Hydra/Send
--     and Hydra/Decode the four formats, Hydra/Recv the reception. Hydra/Line says which bytes pass the
--     line, Hydra/Hex, Hydra/Asc and Hydra/Uue are about one format each, and Hydra/RoundTrip about
--     whole packets. Hydra/Queue is the queue of packets that wait to be written. Hydra/Incoming is the
--     side of `hydra_batch` that receives files, one function for each packet; its state and
--     `p_rx_writefile` and `p_rx_fclose` of source/bforce/prot_common.c are in Hydra/Reception; what the
--     disk answers and the time are arguments. Hydra/Outgoing is the reading and sending of data with `p_tx_readfile`.
--   * source/bforce/u_plock.c and source/bforce/outb_bsy.c: Locks, the lock files over a store that says
--     which process id a file holds, and Locks/Outbound, the locks of addresses; the names that
--     source/bforce/outb_getname.c makes of an address are an argument. Locks/Race has the system calls
--     of several processes at one lock file as a step relation, each with a temporary file of its own.
--   * source/bforce/u_time.c: Time, with `sscanf` and `strtok` for what is read; Time/Check checks an
--     interval in its text, Time/Vector parses intervals first.
--   * source/bforce/prot_emsi_misc.c: Emsi, the fields of a packet; a round of the reader for each byte.
--   * source/bforce/nodelist.c: Nodelist, the search for a flag.
--   * source/bforce/expression.y and source/bforce/expression_lex.c: Expression, the checks of the
--     elements; Expression/Lex has the lexer and Expression/Parse the parser, as bison resolves the
--     grammar. What the session knows is a record. The calls of `yylex` have two more fuel than bytes,
--     one of them for a token that the last expression has left over, and the parser one more than
--     tokens, which Expression/Enough shows to be enough.
--
-- How they interact: the receiver reads M_ADR by Text and Address, keeps the addresses by Session and
-- checks M_PWD there; it leaves its answers in `extracmd`, which the sender sends first. The loop frames
-- the blocks, and enciphers them by Crypt with the keys that the handshake left.
--
-- The functions return the new state beside their result. A null pointer is `none`, and reading one
-- is a result of its own (`crashed`, `send_crash`). A loop over a list or a string is a recursion on
-- it; where a loop moves a pointer by its own rules (`tokens_loop`, `fido_loop`, `inet_loop`) it
-- has fuel, one for each byte of the string, since each round takes a byte at least or is the last.
--
-- Not modelled: the other operations on files of source/bforce/prot_common.c, which Binkp takes as
-- the record `FileOps`, with what the memory of a variable holds that nothing has set; the system calls, so that what `tty_read` and `tty_write` give is an
-- argument of the parts of a round; the texts of error messages; the logs; the other states of the
-- side of `hydra_batch` that sends files, Zmodem, the outbound and the daemon; of EMSI the packets and
-- the handshake, of the nodelist its index and records, of the locks those for BFORCE_USE_CSY, which
-- no build turns on, and of the time the printing.
pub mod Base
pub mod Crc
pub mod Crypt
pub mod Text
pub mod Address
pub mod Session
pub mod Binkp
pub mod Hydra
pub mod Locks
pub mod Time
pub mod Emsi
pub mod Nodelist
pub mod Expression
