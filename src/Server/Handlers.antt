-- ===== src/Server/Handlers.antt =====
-- The messages of the control connection (bbftp-server/bbftpd/bbftpd_readcontrol.c): one function
-- for each do_msg_, with -1 and 0 as the C code returns them, and one for each state.
pub mod Simple
pub mod Names
pub mod Start
pub mod Dispatch
