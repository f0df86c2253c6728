-- ===== src/Client.antt =====
-- The client, bbftp-client/bbftpc: its global variables, what it asks of the system, and the steps
-- that its functions are made of. A pointer is `none` where it is NULL; what `errcode`,
-- `retcode` and `filelist` point to are three of the variables.
pub mod Io
pub mod Requests
pub mod Listing
pub mod Sendproto
pub mod Reconnect
pub mod Transfers
pub mod Children
pub mod Ending
pub mod Asking
pub mod Commands
pub mod Frames
pub mod Contract
pub mod Trip
pub mod Version
pub mod Agreement
mod Tests
use bbftp.Base.{ℕ, Bool, List, ◌∷◌, Option, ℤ}
use bbftp.Channel.{InSock, OutSock}

abbrev pub Text : Type 0
Text = List ℕ

-- The calls of the system that the client makes, on record.
pub data Call : Type 0 where
  malloc_call : ℕ → Call
  close_call : ℤ → Call
  kill_call : ℤ → ℕ → Call
  sleep_call : ℕ → Call
  chdir_call : Text → Call
  umask_call : ℤ → Call
  stdout_call : Text → Call
  waitpid_call : ℤ → Call
  unlink_call : Option Text → Call
  chmod_call : Option Text → ℤ → Call
  rename_call : Option Text → Option Text → Call
  result_call : Text → Call

-- What the system answers, given the calls before: whether malloc of so many bytes gives memory, the
-- errno of a chdir, waitpid, chmod or rename that fails, the value that sscanf finds, and the names for temporary files.
pub record Os : Type 0 where
  pub malloc : List Call → ℕ → Bool
  pub chdir : List Call → Text → Option ℕ
  pub waitpid : List Call → ℤ → Option ℕ
  pub chmod : List Call → Option Text → ℤ → Option ℕ
  pub rename : List Call → Option Text → Option Text → Option ℕ
  pub scan_decimal : Text → Option ℤ
  pub scan_octal : Text → Option ℕ
  pub hostname : Option Text
  pub pid : ℕ

-- What the caller of bbftp_list finds in *filelist: NULL, a pointer to memory that is freed, or the
-- buffer, without the 0 that ends it.
pub data Filelist : Type 0 where
  null dangling : Filelist
  filled : List ℕ → Filelist

-- h_addr_list is the rest of the addresses of BBftp_Hostent. BBftp_Mychildren has BBftp_Requestedstreamnumber
-- entries. The other arrays are left to the code that starts a transfer.
pub record Client : Type 0 where
  pub insock : InSock
  pub outsock : OutSock
  pub incontrolsock : ℤ
  pub outcontrolsock : ℤ
  pub ssh_childpid : ℤ
  pub protocolmin : ℤ
  pub protocolmax : ℤ
  pub protocol : ℤ
  pub transferoption : ℕ
  pub statoutput : Bool
  pub remotedir : Option Text
  pub curfilename : Option Text
  pub realfilename : Option Text
  pub state : ℤ
  pub mychildren : Option (List ℤ)
  pub filemode : ℤ
  pub simulation_mode : Bool
  pub filesize : ℤ
  pub lastaccess : Text
  pub lastmodif : Text
  pub requestedstreamnumber : ℤ
  pub myports : Option (List ℤ)
  pub buffersizeperstream : ℤ
  pub localumask : ℤ
  pub remoteumask : ℤ
  pub remotecos : ℤ
  pub nbport : ℤ
  pub recvwinsize : ℤ
  pub sendwinsize : ℤ
  pub ackto : ℤ
  pub recvcontrolto : ℤ
  pub sendcontrolto : ℤ
  pub datato : ℤ
  pub his_ctladdr : ℕ
  pub h_addr_list : Option (List ℕ)
  pub globaltrymax : ℕ
  pub connectionisbroken : Bool
  pub myexitcode : ℕ
  pub errcode : ℕ
  pub retcode : ℤ
  pub filelist : Filelist
  pub calls : List Call
  pub os : Os

-- Undefined behaviour of C that the code can reach.
pub data Fault : Type 0 where
  signed_overflow out_of_bounds double_free null_pointer : Fault

-- A piece of the client returns, ends the process, waits for ever in a call, or goes wrong.
pub data Outcome {ℓ} (A : Type ℓ) : Type ℓ where
  returns : A → Client → Outcome A
  exits : ℕ → Client → Outcome A
  waits : Client → Outcome A
  faults : Fault → Client → Outcome A

abbrev pub M {ℓ} : Type ℓ → Type ℓ
M A = Client → Outcome A

abbrev pub pure {ℓ} : {A : Type ℓ} → A → M A
pure a s = returns a s

abbrev pub continue {ℓ κ} : {A : Type ℓ} {B : Type κ} → Outcome A → (A → M B) → Outcome B
continue (returns a t) f = f a t
continue (exits n t) f = exits n t
continue (waits t) f = waits t
continue (faults e t) f = faults e t

infixl 5 ◌>>=◌ ◌>>◌
abbrev pub ◌>>=◌ {ℓ κ} : {A : Type ℓ} {B : Type κ} → M A → (A → M B) → M B
◌>>=◌ m f s = continue (m s) f

abbrev pub ◌>>◌ {ℓ κ} : {A : Type ℓ} {B : Type κ} → M A → M B → M B
m >> k = m >>= λ _. k

abbrev pub fault {ℓ} : {A : Type ℓ} → Fault → M A
fault e s = faults e s

-- printmessage with CASE_FATAL_ERROR.
abbrev pub exit {ℓ} : {A : Type ℓ} → ℕ → M A
exit n s = exits n s

abbrev pub modify : (Client → Client) → M (Unit {0})
modify f s = returns tt (f s)

abbrev pub gets {ℓ} : {A : Type ℓ} → (Client → A) → M A
gets f s = returns (f s) s

abbrev pub record_call : Call → M (Unit {0})
record_call call = modify λ s. record s { calls = call ∷ s.calls }

-- A call of the system: its answer, with the call on record.
abbrev pub ask {ℓ} : {A : Type ℓ} → Call → (Os → List Call → A) → M A
ask call answer s = returns (answer s.os s.calls) (record s { calls = call ∷ s.calls })

abbrev pub set_errcode : ℕ → M (Unit {0})
set_errcode n = modify λ s. record s { errcode = n }
