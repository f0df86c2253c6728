-- ===== src/Server.antt =====
-- The server of protocol versions 2 and 3 (bbftp-server/bbftpd): its global variables, the system
-- that it runs on, and the ways in which a piece of it can end.
pub mod Errno
pub mod Io
pub mod Files
pub mod Transfer
pub mod Handlers
pub mod Loop
pub mod Signals
pub mod Handshake
pub mod Children
pub mod Frames
pub mod Protocol
pub mod Tests
use bbftp.Base.{ℕ, ℤ, Bool, List, [], ◌∷◌, Option, none, some, ◌⊎◌}
use bbftp.Channel.{InSock, OutSock}

-- The values of `state` in bbftp-server/includes/status.h.
pub data State : Type 0 where
  conn logged receiving sending protwait : State
  waiting_filename_store waiting_filename_retr waiting_store_start waiting_retr_start : State
  waiting_create_zero : State

-- A path, or any text of C without its NUL.
abbrev pub Text : Type 0
Text = List ℕ

-- The system calls whose effect outlasts them.
pub data Call : Type 0 where
  malloc_call : ℕ → Call
  unlink_call : Text → Call
  mkdir_call : Text → Call
  stat_call : Text → Call
  create_call : Text → Call
  close_call : Text → Call
  chdir_call : Text → Call
  utime_call : Text → Call
  chmod_call : Text → ℤ → Call
  rename_call : Text → Text → Call
  kill_call : ℕ → ℤ → Call
  fork_call : ℤ → ℤ → Call
  close_socket_call : ℤ → Call
  connect_call : ℤ → Call
  listen_call : ℤ → Call
  wait_call : ℤ → Call
  report_call : Text → Call
  waitpid_call : ℤ → Call

pub record Stat : Type 0 where
  pub mode : ℕ
  pub size : ℤ
  pub atime : Text
  pub mtime : Text

-- What stat says of a path: an errno, or the entry. The times stand as the eight hexadecimal digits
-- that the server makes of them.
pub data StatAnswer : Type 0 where
  absent : ℕ → StatAnswer
  present : Stat → StatAnswer

-- What the server relies on from outside its code. Each answer may depend on the path and on every
-- call made before it; `none` is success where the answer is an optional errno, and the right side
-- of a sum is a failure.
pub record Os : Type 0 where
  pub malloc : List Call → ℕ → Bool
  pub unlink : List Call → Text → Option ℕ
  pub mkdir : List Call → Text → Option ℕ
  pub stat : List Call → Text → StatAnswer
  pub create : List Call → Text → Option ℕ
  pub close : List Call → Text → Option ℕ
  pub chdir : List Call → Text → Option ℕ
  pub getcwd : List Call → Text ⊎ ℕ
  pub utime : List Call → Text → Option ℕ
  pub chmod : List Call → Text → ℤ → Option ℕ
  pub rename : List Call → Text → Text → Option ℕ
  pub fork : List Call → ℤ ⊎ ℕ
  -- waitpid with WNOHANG: the status of a child that has ended.
  pub waitpid : List Call → ℤ → Option ℕ
  pub strerror : ℕ → Text
  pub hostname : Option Text
  pub pid : ℕ
  -- bbftpd_createreceivesocket: a connected socket, or the message of the failure; and the sockets of
  -- bbftpd_getdatasock with their ports.
  pub receivesocket : List Call → ℤ → ℤ ⊎ Text
  pub datasocks : List Call → ℤ → Option (List (ℤ × ℤ))
  -- bbftpd_msg_pending, called until it does not fail: whether there is input before the timeout, or
  -- none where it never says.
  pub pending : List Call → ℤ → Option Bool
  -- bbftpd_list, bbftpd_stat and bbftpd_statfs: what they send, and what they return.
  pub list : List Call → ℕ → Text → Text × ℤ
  pub statmsg : List Call → Text → Text × ℤ
  pub statfs : List Call → Text → Text × ℤ

-- An array of ints from malloc: its size in bytes, and the entries written so far.
pub record Block : Type 0 where
  pub size : ℕ
  pub items : List ℤ

-- The global variables; a pointer is `none` where it is NULL. A buffer is its size.
pub record Server : Type 0 where
  pub state : State
  pub protocolversion : ℤ
  pub maxstreams : ℤ
  pub transferoption : ℕ
  pub filemode : ℤ
  pub lastaccess : Text
  pub lastmodif : Text
  pub sendwinsize : ℤ
  pub recvwinsize : ℤ
  pub buffersizeperstream : ℤ
  pub requestedstreamnumber : ℤ
  pub filesize : ℤ
  pub umask : ℤ
  pub curfilename : Option Text
  pub realfilename : Option Text
  pub myports : Option Block
  pub mysockets : Option Block
  pub mychildren : Option Block
  pub readbuffer : Option ℕ
  pub compbuffer : Option ℕ
  pub nbpidchild : ℕ
  pub unlinkfile : ℕ
  pub childendinerror : Bool
  pub killdone : Bool
  pub insock : InSock
  pub outsock : OutSock
  pub calls : List Call
  pub os : Os

-- Undefined behaviour of C that the code can reach.
pub data Fault : Type 0 where
  use_after_free double_free out_of_bounds null_pointer division_by_zero signed_overflow : Fault

-- A piece of the server returns, exits the process, waits for ever in a call, or goes wrong.
pub data Outcome {ℓ} (A : Type ℓ) : Type ℓ where
  returns : A → Server → Outcome A
  exits : ℕ → Server → Outcome A
  waits : Server → Outcome A
  faults : Fault → Server → Outcome A

abbrev pub M {ℓ} : Type ℓ → Type ℓ
M A = Server → Outcome A

abbrev pub pure {ℓ} : {A : Type ℓ} → A → M A
pure a s = returns a s

abbrev pub continue {ℓ κ} : {A : Type ℓ} {B : Type κ} → Outcome A → (A → M B) → Outcome B
continue (returns a t) f = f a t
continue (exits n t) f = exits n t
continue (waits t) f = waits t
continue (faults e t) f = faults e t

infixl 5 ◌>>=◌ ◌>>◌
abbrev pub ◌>>=◌ {ℓ κ} : {A : Type ℓ} {B : Type κ} → M A → (A → M B) → M B
◌>>=◌ m f s = continue (m s) f

abbrev pub ◌>>◌ {ℓ κ} : {A : Type ℓ} {B : Type κ} → M A → M B → M B
m >> k = m >>= λ _. k

abbrev pub fault {ℓ} : {A : Type ℓ} → Fault → M A
fault e s = faults e s

abbrev pub modify : (Server → Server) → M (Unit {0})
modify f s = returns tt (f s)

-- The current value of a variable.
abbrev pub gets {ℓ} : {A : Type ℓ} → (Server → A) → M A
gets f s = returns (f s) s

-- A call of the system: its answer, with the call on record.
abbrev pub ask {ℓ} : {A : Type ℓ} → Call → (Os → List Call → A) → M A
ask call answer s = returns (answer s.os s.calls) (record s { calls = call ∷ s.calls })

abbrev pub set_state : State → M (Unit {0})
set_state x = modify λ s. record s { state = x }
