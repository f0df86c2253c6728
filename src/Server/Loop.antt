-- ===== src/Server/Loop.antt =====
-- bbftp_run_protocol_2 of bbftp-server/bbftpd/bbftpd_readcontrol.c: one message after the other, until
-- the connection ends. The signal handlers that run while it waits are no part of it.
use bbftp.Base.{
  ℕ, zero, suc, Bool, true, false, Option, none, some, ℤ, pos, minus_one, eqb_ℤ, if◌then◌else◌,
}
use bbftp.Wire.{Message}
use bbftp.Server.{
  Server, State, conn, logged, receiving, sending, waiting_filename_store, waiting_filename_retr,
  waiting_store_start, waiting_retr_start, waiting_create_zero, protwait, M, waits, wait_call, pure,
  ◌>>=◌, ◌>>◌, ask, gets,
}
use bbftp.Server.Io.{msgread_msg}
use bbftp.Server.Files.{storeunlink}
use bbftp.Server.Handlers.Dispatch.{handle}

-- The seconds to wait for the next message; -1 blocks.
unfoldable pub timeout_of : State → ℤ
timeout_of waiting_store_start = pos 10
timeout_of waiting_filename_store = pos 10
timeout_of waiting_filename_retr = pos 10
timeout_of sending = minus_one
timeout_of receiving = minus_one
timeout_of conn = pos 900
timeout_of logged = pos 900
timeout_of waiting_retr_start = pos 900
timeout_of waiting_create_zero = pos 900
timeout_of protwait = pos 900

-- The states in which the end of the connection removes the file.
unfoldable pub drops_upon_expiry : State → Bool
drops_upon_expiry waiting_store_start = true
drops_upon_expiry _ = false

unfoldable pub drops_upon_error : State → Bool
drops_upon_error waiting_store_start = true
drops_upon_error receiving = true
drops_upon_error _ = false

-- if (drop) bbftpd_storeunlink (realfilename); return 0;
unfoldable pub leave : Bool → M (Option ℤ)
leave true = do name ← gets (λ s. s.realfilename); storeunlink name; pure (some (pos 0))
leave false = pure (some (pos 0))

-- What follows a message: the loop ends with -1, or goes on.
unfoldable pub after : ℤ → M (Option ℤ)
after status = pure (if eqb_ℤ status minus_one then some status else none)

-- What follows the read of a message, in a state.
unfoldable pub handle_read : State → Option Message → M (Option ℤ)
handle_read waiting none = leave (drops_upon_error waiting)
handle_read waiting (some msg) = handle waiting msg >>= after

-- What follows the wait for input.
unfoldable pub handle_pending : State → Option Bool → M (Option ℤ)
handle_pending waiting none = λ s. waits s
handle_pending waiting (some false) = leave (drops_upon_expiry waiting)
handle_pending waiting (some true) = msgread_msg >>= handle_read waiting

-- One round of the loop: the value that the function returns, or none where the loop goes on.
unfoldable pub round : M (Option ℤ)
round = do
  waiting ← gets (λ s. s.state)
  input ← ask (wait_call (timeout_of waiting)) (λ os calls. os.pending calls (timeout_of waiting))
  handle_pending waiting input

-- The loop, for at most so many messages: none where they are used up.
unfoldable pub run_protocol_2 : ℕ → M (Option ℤ)
run_protocol_2 zero = pure none
run_protocol_2 (suc rounds) = do
  let next = run_protocol_2 rounds
  r ← round
  elim r [ none ↦ next | some v ↦ pure (some v) ]

-- What the loop assigns before it starts, and the umask that it sets.
unfoldable pub start : Server → Server
start s = record s { mychildren = none; nbpidchild = 0; curfilename = none; umask = pos 0o022 }
