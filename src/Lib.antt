-- ===== src/Lib.antt =====
-- bbftp: a file transfer program that carries a file over several streams.
--
-- The program is a client (bbftp-client) and a server (bbftp-server). They talk over a control
-- connection in messages of a code and a length; the data of a file runs over further connections,
-- one for each child that the server forks for a fragment of the file. The model is of a server of
-- protocol versions 2 and 3 and of a client, built without RFIO and without gzip.
--
-- Base holds what the modules share: signed ints and their 32-bit patterns, bits, text, lists.
--
-- Channel models the loops over a socket of bbftp-server/bbftpd/bbftpd_message.c: readmessage,
-- discardmessage and writemessage with try_select. A socket is the bytes of the peer with the answers
-- of the kernel to select, read and write, in their order; a loop that asks beyond them has blocked, so
-- the loops are recursive on the answers and need no fuel. Channel/Read, Channel/Write and
-- Channel/Discard have their proofs.
--
-- Wire models the layout of headers, ints and struct mess_store_v2 (bbftpd_message.c and
-- bbftp-server/includes/structures.h) on a machine with the low byte first, and ntohll of bbftpd.c.
-- Wire/Codes has the constants; Wire/Words, Wire/Trip and Wire/Store have the
-- proofs.
--
-- Server is the state of the server process: its global variables as a record, a pointer as an option
-- that is `none` where it is NULL, the connection, and the record of its system calls. The answers of
-- the system are the functions of the record Os and may depend on every call before; the functions of
-- bbftpd_list.c, bbftpd_stat.c, bbftpd_statfs.c and bbftpd_socket.c stand among them. A piece of the
-- server returns, exits, waits for ever, or goes wrong in one of the ways of Fault.
--   Server/Io: bbftpd_message.c on the control connection, the readers at the top of
--     bbftpd_readcontrol.c, free_all_var (bbftpd_utils.c) and clean_child (bbftpd.c).
--   Server/Files and Server/Files/Create: bbftpd_store.c but for the transfer itself, and
--     strip_trailing_slashes; Server/Files/Retr: bbftpd_retrcheckfile (bbftpd_retr.c).
--   Server/Transfer: the buffers and the answer before a transfer (bbftpd_readcontrol.c), and the part
--     of bbftpd_storetransferfile and bbftpd_retrtransferfile that the parent runs.
--   Server/Handlers: the handlers of bbftpd_readcontrol.c and the switch on the state.
--   Server/Loop: bbftp_run_protocol_2. run_protocol_2 takes a number of messages as its bound, since
--     the loop of the program ends only with the connection.
-- The proofs are in Server/Frames (what a piece leaves alone) and Server/Protocol (the states as a
-- machine, and what each of them needs), in Server/Files/Options, and in Server/Transfer/Fragments and
-- Server/Transfer/Forks, which have those on fragments.
--
-- Server/Handshake: checkprotocol (bbftpd_check.c), and main of bbftpd.c from S_PROTWAIT up to the loop;
-- Server/Handshake/Version has the proofs.
-- Server/Signals: bbftpd_signals.c, SIGCHLD and SIGTERM. A handler is a piece of its own, which runs
-- between two other pieces; Server/Signals/Session, Server/Signals/Late (a SIGCHLD before the start of a
-- store) and Server/Signals/Interleaved, which puts the handler between the rounds of the loop, have the
-- proofs.
--
-- Child is the state of a process that carries one fragment of a file, and the steps that the children of
-- both programs are made of: one file, one connection, and the answers of the system to it. A loop that
-- stores takes a bound on its rounds; the length of the fragment is enough. Server/Children has the
-- children of bbftpd_store.c and bbftpd_retr.c, Client/Children those of bbftp_store.c and bbftp_retr.c.
-- Child/Ends, Child/Sockets, Child/Rounds, Child/Sends and Child/Pieces have the proofs that they share, the
-- files below Server/Children and Client/Children those of each, and Delivery puts the two ends together.
-- The child of a retrieval takes the options of the transfer: with TROPT_GZIP the server writes a struct
-- mess_compress before each block even where gzip is not built in.
--
-- Client is the state of the client process, bbftp-client/bbftpc, in the same style: its variables, the
-- control connection, its system calls, and the answers of the system.
--   Client/Io: readmessage.c, writemessage.c, and bbftp_close_control (bbftp_utils.c). They share
--     the loops of Channel, which take the errnos after which select is called again.
--   Client/Requests and Client/Listing: the requests on the control connection (bbftp_cd.c,
--     bbftp_mkdir.c, bbftp_rm.c, bbftp_stat.c, bbftp_statfs.c, bbftp_setremotecos.c,
--     bbftp_setremoteumask.c, bbftp_list.c, bbftp_dir.c) and bbftp_lcd.c.
--   Client/Sendproto: sendproto.c. Client/Reconnect: reconnecttoserver and todoafterconnection
--     (connecttoserver.c), with do_connect as a parameter. The loop there has no bound, so it runs on
--     fuel: where every connection fails, one round more than there are addresses is enough; where a
--     server turns the client away each time, no fuel is.
--   Client/Asking: bbftp_put and bbftp_get from their first message to the answer of the server; what they
--     do after it is an argument.
--   Client/Ending: bbftp_put and bbftp_get from the label waitcontrol on (bbftp_put.c, bbftp_get.c), with
--     bbftp_clean_child and the file operations of bbftp_store.c that they call. The answers of that
--     select are an argument of their own, and the loop is recursive on them.
--   Client/Transfers: bbftp_mget.c and bbftp_mput.c; bbftp_get, bbftp_put and what reads the local
--     directories are parameters. Client/Commands: bbftp_cmds.c.
-- The proofs are in Client/Frames (who closes the connection, and what is said on it), Client/Contract,
-- Client/Trip (a request as the server reads it), Client/Version, Client/Agreement, Client/Listing/Lines,
-- Client/Listing/Lost (a connection lost inside a listing), Client/Reconnect/Ends, Client/Transfers/Many/Entries, Client/Io/Discard, and below
-- Client/Asking, Client/Ending and Client/Commands.
--
-- Not modelled: what the client does in a get and a put between the answer and the wait for the end, the
-- check of the file before them, the login and the data sockets, protocol 1, RFIO, the log, and what the client prints for its user.
pub mod Base
pub mod Channel
pub mod Wire
pub mod Child
pub mod Server
pub mod Client
pub mod Delivery
