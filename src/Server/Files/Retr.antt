-- ===== src/Server/Files/Retr.antt =====
-- bbftpd_retrcheckfile of bbftp-server/bbftpd/bbftpd_retr.c, and the arithmetic of sizes.
use bbftp.Base.{
  ℕ, ◌+◌, ◌-◌, ◌*◌, ◌/◌, ◌^◌, [], ◌∷◌, ◌++◌, Option, none, some, xor, suc, ℤ, pos, negsuc,
  minus_one, pos_part, neg_part, ltb_ℤ, eqb_ℤ, to_int, of_int, ltb, leb, ◌==◌, if◌then◌else◌, has,
  bit_and, text,
}
use bbftp.Wire.Codes.{tropt_rfio}
use bbftp.Server.{
  M, Text, Stat, StatAnswer, absent, present, stat_call, pure, ◌>>=◌, ◌>>◌, ask, modify, gets,
  fault, division_by_zero, signed_overflow,
}
use bbftp.Server.Files.{Result, result, no_retry, one_of, s_ifdir}
use bbftp.Server.Errno

-- a * 1024 of ints, where it does not overflow.
unfoldable pub kilobytes : ℤ → Option ℤ
kilobytes (pos n) = if ltb (n * 1024) (2 ^ 31) then some (pos (n * 1024)) else none
kilobytes (negsuc n) =
    if leb (suc n * 1024) (2 ^ 31) then some (negsuc (suc n * 1024 - 1)) else none

-- The division of C, towards 0, of a size by a divisor that is not 0.
unfoldable pub div_ℤ : ℤ → ℤ → ℤ
div_ℤ a b =
    let q = (pos_part a + neg_part a) / (pos_part b + neg_part b) in
    if xor (ltb_ℤ a (pos 0)) (ltb_ℤ b (pos 0))
    then if q == 0 then pos 0 else negsuc (q - 1)
    else pos q

-- The number of streams for a file: one for each buffer that it fills, and no more than were asked
-- for or are allowed. The quotient is an int: its pattern is cut to 32 bits.
unfoldable pub stream_number : ℤ → ℤ → ℤ → ℤ
stream_number quotient requested maxstreams =
    let tmpnbport = to_int (of_int quotient) in
    let n =
      if eqb_ℤ tmpnbport (pos 0)
      then pos 1
      else if ltb_ℤ tmpnbport requested
      then tmpnbport
      else requested in
    if ltb_ℤ maxstreams n then maxstreams else n

abbrev pub s_ifmt : ℕ
s_ifmt = 0o170000

abbrev pub s_ifreg : ℕ
s_ifreg = 0o100000

-- S_ISREG, and mode & ~S_IFREG of a regular file.
unfoldable pub file_mode : ℕ → ℤ
file_mode mode =
    to_int (if bit_and mode s_ifmt == s_ifreg then bit_and mode (2 ^ 32 - 1 - s_ifreg) else mode)

-- The file's size in buffers gives the streams; the size of a buffer is an int.
unfoldable pub count_streams : Stat → Option ℤ → M Result
unfolding div_ℤ
count_streams st none = fault signed_overflow
count_streams st (some size) = if eqb_ℤ size (pos 0) then fault division_by_zero else (do
  modify λ s. record s {
    requestedstreamnumber = stream_number (div_ℤ st.size size) s.requestedstreamnumber s.maxstreams;
  }
  pure (pos 0, []))

-- What the server keeps of the file that it found.
unfoldable pub keep_stat : Stat → M (Unit {0})
keep_stat st = modify λ s. record s {
  lastaccess = st.atime;
  lastmodif = st.mtime;
  filemode = file_mode st.mode;
  filesize = st.size;
}

unfoldable pub check_found : Text → StatAnswer → M Result
unfolding one_of
check_found filename (absent e) = do
  os ← gets (λ s. s.os)
  result
      (no_retry (
        one_of e
          (Errno.eacces ∷ Errno.eloop ∷ Errno.enametoolong ∷ Errno.enoent ∷ Errno.enotdir ∷ [])))
      (text "Error stating file " ++ (filename ++ (text " : " ++ (os.strerror e ++ text " "))))
check_found filename (present st) =
    if has st.mode s_ifdir
    then result minus_one (text "File " ++ (filename ++ text " is a directory"))
    else (do
      keep_stat st
      buffer ← gets (λ s. s.buffersizeperstream)
      count_streams st (kilobytes buffer))

unfoldable pub retrcheckfile : Text → M Result
retrcheckfile filename = do
  options ← gets (λ s. s.transferoption)
  if has options tropt_rfio
      then result minus_one (text "Fail to retreive : RFIO not supported")
      else ask (stat_call filename) (λ os calls. os.stat calls filename) >>= check_found filename
