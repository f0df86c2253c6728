-- ===== src/Server/Files.antt =====
-- The server's file operations: bbftp-server/bbftpd/bbftpd_store.c and
-- strip_trailing_slashes of bbftpd_utils.c, built without RFIO and without gzip.
-- A result is the return value with the message that the caller reports.
pub mod Create
pub mod Retr
pub mod Options
use mathlib.Core.List.{reverse}
use bbftp.Base.{
  ℕ, ◌+◌, ◌-◌, ◌*◌, ◌/◌, ◌^◌, Bool, true, false, List, [], ◌∷◌, ◌++◌, Option, none, some, ◌&&◌,
  ◌||◌, not, xor, suc, ℤ, pos, negsuc, minus_one, pos_part, neg_part, ltb_ℤ, eqb_ℤ, to_int, of_int,
  ltb, leb, ◌==◌, if◌then◌else◌, length, has, bit_and, bit_or, text, snprintf,
}
use bbftp.Wire.Codes.{msg_bad, tropt_tmp, tropt_acc, tropt_mode, tropt_dir, tropt_gzip, tropt_rfio}
use bbftp.Server.{
  Server, M, Text, Os, Stat, StatAnswer, absent, present, unlink_call, mkdir_call, stat_call,
  create_call, close_call, utime_call, chmod_call, rename_call, returns, pure, ◌>>=◌, ◌>>◌, ask,
  modify, gets, fault, division_by_zero, signed_overflow,
}
use bbftp.Server.Io.{malloc, reply}
use bbftp.Server.Errno

-- The chains of comparisons of an errno.
unfoldable pub one_of : ℕ → List ℕ → Bool
one_of e [] = false
one_of e (x ∷ xs) = e == x || one_of e xs

abbrev pub s_ifdir : ℕ
s_ifdir = 0o40000

abbrev pub s_iwusr : ℕ
s_iwusr = 0o200

abbrev pub Result : Type 0
Result = ℤ × Text

-- The message buffers of the handlers have 1024 bytes.
abbrev pub result : ℤ → Text → M Result
result status msg = pure (status, snprintf 1024 msg)

-- -1 where a retry cannot help, and 1 where it may.
abbrev pub no_retry : Bool → ℤ
no_retry true = minus_one
no_retry false = pos 1

-- The loop of strip_trailing_slashes, on the path from its end: `last` is the length less one.
unfoldable pub strip_slashes : Text → Text
strip_slashes [] = []
strip_slashes (c ∷ []) = c ∷ []
strip_slashes (c ∷ d ∷ rest) = if c == b'/' then strip_slashes (d ∷ rest) else c ∷ d ∷ rest

unfoldable pub strip_trailing_slashes : Text → Text
unfolding strip_slashes
strip_trailing_slashes path = reverse (strip_slashes (reverse path))

-- bbftpd_storeunlink; unlink of a NULL pointer fails and removes nothing.
unfoldable pub storeunlink : Option Text → M ℤ
storeunlink filename = do
  options ← gets (λ s. s.transferoption)
  if has options tropt_rfio then pure (pos 0) else elim filename [
    | none ↦ pure minus_one
    | some path ↦ do
      e ← ask (unlink_call path) (λ os calls. os.unlink calls path)
      elim e [ none ↦ pure (pos 0) | some _ ↦ pure minus_one ]
  ]

abbrev pub known_options : ℕ
known_options =
    bit_or tropt_tmp (bit_or tropt_acc (bit_or tropt_mode (bit_or tropt_dir tropt_gzip)))

-- ~TROPT_GZIP
abbrev pub not_gzip : ℕ
not_gzip = 2 ^ 32 - 1 - tropt_gzip

-- The variables as bbftpd_storecheckoptions leaves them: it always returns 0.
unfoldable pub checked_options : Server → Server
checked_options s =
    let options =
      if has s.transferoption tropt_gzip
      then bit_and s.transferoption not_gzip
      else s.transferoption in
    record s {
      transferoption = bit_and options known_options;
      requestedstreamnumber =
          if ltb_ℤ s.maxstreams s.requestedstreamnumber
          then s.maxstreams
          else s.requestedstreamnumber;
    }

unfoldable pub storecheckoptions : M ℤ
storecheckoptions = do modify checked_options; pure (pos 0)

-- The steps of bbftp_store_process_transfer after the transfer: the name and errno of the call that
-- failed.
unfoldable pub process_steps : Text → Text → M (Option (Text × ℕ))
process_steps rfile cfile = do
  options ← gets (λ s. s.transferoption)
  mode ← gets (λ s. s.filemode)
  times ←
      if has options tropt_acc
      then ask (utime_call rfile) (λ os calls. os.utime calls rfile)
      else pure none
  elim times [
    | some e ↦ pure (some (text "utime", e))
    | none ↦ do
      modes ←
          if has options tropt_mode
          then ask (chmod_call rfile mode) (λ os calls. os.chmod calls rfile mode)
          else pure none
      elim modes [
        | some e ↦ pure (some (text "chmod", e))
        | none ↦ do
          renamed ←
              if has options tropt_tmp
              then ask (rename_call rfile cfile) (λ os calls. os.rename calls rfile cfile)
              else pure none
          elim renamed [ some e ↦ pure (some (text "rename", e)) | none ↦ pure none ]
      ]
  ]

-- (void) unlink
unfoldable pub unlink_quietly : Text → M (Unit {0})
unlink_quietly path s = returns tt (record s { calls = unlink_call path ∷ s.calls })

-- The end of bbftp_store_process_transfer: a call that failed is reported.
unfoldable pub report_problem : Text → Bool → Option (Text × ℕ) → M ℤ
report_problem rfile unlink_upon_fail none = pure (pos 0)
report_problem rfile unlink_upon_fail (some (syscall, e)) = do
  os ← gets (λ s. s.os)
  if unlink_upon_fail then unlink_quietly rfile else pure tt
  reply msg_bad (
      snprintf 1024 (
        text "Error processing "
        ++ (rfile ++ (text ": " ++ (syscall ++ (text " failed: " ++ os.strerror e))))))
  pure minus_one

unfoldable pub store_process_transfer : Text → Text → Bool → M ℤ
store_process_transfer rfile cfile unlink_upon_fail =
    process_steps rfile cfile >>= report_problem rfile unlink_upon_fail
