-- ===== src/Server/Files/Options.antt =====
-- What bbftpd_storecheckoptions of bbftp-server/bbftpd/bbftpd_store.c leaves of a client's wishes.
use bbftp.Base.{
  ℕ, ◌≤◌, ◌≡◌, arith, Bool, true, false, ℤ, bit, bit_and, bit-bit_and, has, if◌then◌else◌, ltb_ℤ,
}
use bbftp.Wire.Codes.{tropt_gzip}
use bbftp.Server.{Server}
use bbftp.Server.Files.{known_options, not_gzip, checked_options}

restricted :
    (b : Bool) (k x : ℕ)
    → let r = bit_and (if b then bit_and x not_gzip else x) known_options in
      (bit k r ≤ bit k x) × (bit k r ≤ bit k known_options)
restricted true k x = (
  omega (arith, bit-bit_and k (bit_and x not_gzip) known_options, bit-bit_and k x not_gzip),
  omega (arith, bit-bit_and k (bit_and x not_gzip) known_options),
)
restricted false k x =
    (omega (arith, bit-bit_and k x known_options), omega (arith, bit-bit_and k x known_options))

no_gzip :
    (b : Bool) (x : ℕ)
    → b ≡ true
    → bit 28 (bit_and (if b then bit_and x not_gzip else x) known_options) ≡ 0
no_gzip true x e =
    omega (arith, bit-bit_and 28 (bit_and x not_gzip) known_options, bit-bit_and 28 x not_gzip)
no_gzip false x e = absurd (ground (arith, e))

at_most : (m n : ℤ) → ltb_ℤ m (if ltb_ℤ m n then m else n) ≡ false
at_most m n = ground arith

-- The check of the options gives the client no option that it did not ask for and none that the server
-- does not know, and no more streams than the server allows. A digit of the number is an option.
pub checked_options-restricts :
    (s : Server) (k : ℕ)
    → let t = checked_options s in
      (bit k t.transferoption ≤ bit k s.transferoption)
      × (bit k t.transferoption ≤ bit k known_options)
      × (ltb_ℤ s.maxstreams t.requestedstreamnumber ≡ false)
unfolding checked_options
checked_options-restricts s k =
    let (a, b) = restricted (has s.transferoption tropt_gzip) k s.transferoption in
    (a, b, at_most s.maxstreams s.requestedstreamnumber)
