-- ===== src/Client/Commands/Names.antt =====
-- The file names of the transfers, and their commands, in bbftp-client/bbftpc/bbftp_cmds.c. The
-- transfers themselves and the login are parameters.
use bbftp.Base.{
  ℕ, zero, suc, ◌+◌, ◌-◌, ◌==◌, Bool, true, false, not, List, [], ◌∷◌, ◌++◌, Option, none, some,
  pos, length, drop, if◌then◌else◌, text, decimal, snprintf, has,
}
use bbftp.Wire.Codes.{tropt_tmp}
use bbftp.Client.{Text, Os, M, pure, ◌>>=◌, ◌>>◌, modify, gets, fault, out_of_bounds}
use bbftp.Client.Io.{malloc}
use bbftp.Client.Transfers.{Transfers}
use bbftp.Client.Transfers.Many.{char_at, bbftp_mget, bbftp_mput}
use bbftp.Client.Commands.Settings.{finish}

-- The loop of get_basename with f = file + n.
unfoldable pub basename_at : Text → ℕ → Text
basename_at file zero = file
basename_at file (suc n) = if char_at file n == b'/' then drop (suc n) file else basename_at file n

unfoldable pub get_basename : Text → Text
get_basename file = basename_at file (length file)

unfoldable pub allocate_filename : ℕ → M Bool
allocate_filename len = do
  fits ← malloc (len + 1)
  if fits then pure true else ((modify λ s. record s { myexitcode = 35 }) >> pure false)

-- allocate_curr_and_real_filenames: the name that both outputs get. `second` is the extra length of
-- the second one, if there is one. Of an empty name, a[len-1] is far outside.
unfoldable pub allocate_names : Text → Text → Option ℕ → M (Option Text)
allocate_names a ref second =
    let base = get_basename ref in
    allocate_filename (length a + length base) >>= λ fits.
    if not fits
    then pure none
    else if length a == 0
    then fault out_of_bounds
    else let name = if char_at a (length a - 1) == b'/' then a ++ base else a in
      elim second [
        | none ↦ pure (some name)
        | some extra ↦ allocate_filename (length a + length base + extra) >>= λ again.
            pure (if again then some name else none)
      ]

-- What gethostname leaves in the buffer.
abbrev pub host : Option Text → Text
host none = []
host (some name) = name

-- The suffix that snprintf writes into the extra 128 bytes.
unfoldable pub temporary_suffix : Os → Text
temporary_suffix os =
    snprintf 128 (text ".bbftp.tmp." ++ (host os.hostname ++ (text "." ++ decimal os.pid)))

unfoldable pub set_names : Text → Text → M (Unit {0})
set_names curr_file real_file =
    modify λ s. record s { curfilename = some curr_file; realfilename = some real_file }

-- The second argument, or "./".
unfoldable pub or_here : List Text → Text
or_here [] = text "./"
or_here (name ∷ rest) = name

module _ (world : Transfers) where
  unfoldable pub get_file : Text → Text → M Bool
  get_file remfile name = do
    options ← gets (λ s. s.transferoption)
    os ← gets (λ s. s.os)
    set_names name (if has options tropt_tmp then name ++ temporary_suffix os else name)
    r ← world.bbftp_get remfile
    finish r
    modify λ s. record s { state = pos 0 }
    pure true

  unfoldable pub do_get : List Text → M Bool
  do_get (cmd ∷ remfile ∷ rest) = do
    name ← allocate_names (or_here rest) remfile (some 128)
    elim name [ none ↦ pure false | some file ↦ get_file remfile file ]
  do_get few = fault out_of_bounds

  -- The two copies of the local name.
  unfoldable pub put_file : Text → Text → M Bool
  put_file localfile remfile = do
    one ← allocate_filename (length localfile)
    if not one then pure false else (do
      two ← allocate_filename (length localfile)
      if not two
          then pure false
          else (do set_names localfile localfile; r ← world.bbftp_put remfile; finish r))

  -- argv[2], or the last part of the local name.
  unfoldable pub remote_name : Text → List Text → Text
  remote_name localfile [] = get_basename localfile
  remote_name localfile (name ∷ rest) = name

  unfoldable pub do_put : List Text → M Bool
  do_put (cmd ∷ localfile ∷ rest) = do
    name ← allocate_names (remote_name localfile rest) localfile none
    elim name [ none ↦ pure false | some file ↦ put_file localfile file ]
  do_put few = fault out_of_bounds

module _ (world : Transfers) (fuel : ℕ) where
  unfoldable pub do_mget : List Text → M Bool
  do_mget (cmd ∷ remfile ∷ rest) = bbftp_mget world fuel remfile (or_here rest) >>= finish
  do_mget few = fault out_of_bounds

  unfoldable pub do_mput : List Text → M Bool
  do_mput (cmd ∷ localfile ∷ rest) = bbftp_mput world fuel localfile (or_here rest) >>= finish
  do_mput few = fault out_of_bounds
