-- ===== src/Server/Protocol.antt =====
-- The protocol as a machine of its states: what bbftp_run_protocol_2 may do with a message
-- (bbftp-server/bbftpd/bbftpd_readcontrol.c), without the data.
pub mod Logged
pub mod Ready
pub mod Names
pub mod Filename
pub mod Retrieve
pub mod Start
pub mod Transfer
pub mod Handle
pub mod Rounds
use bbftp.Base.{ℕ, ◌≡◌, ℤ, minus_one, ◌⊎◌}
use bbftp.Server.{
  Server, State, logged, receiving, sending, waiting_filename_store, waiting_filename_retr,
  waiting_store_start, waiting_retr_start, waiting_create_zero,
}

-- A message that the connection survives. The states of a transfer have no step: only the end of the
-- children leads out of them.
pub data Step : State → State → Type 0 where
  command : Step logged logged
  begin_store : Step logged waiting_filename_store
  begin_retr : Step logged waiting_filename_retr
  named_store : Step waiting_filename_store waiting_store_start
  done_store : Step waiting_filename_store logged
  named_retr : Step waiting_filename_retr waiting_retr_start
  empty_retr : Step waiting_filename_retr waiting_create_zero
  refused_retr : Step waiting_filename_retr logged
  run_store : Step waiting_store_start receiving
  drop_store : Step waiting_store_start logged
  run_retr : Step waiting_retr_start sending
  drop_retr : Step waiting_retr_start logged
  created : Step waiting_create_zero logged
