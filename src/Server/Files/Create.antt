-- ===== src/Server/Files/Create.antt =====
-- The directories and the file of a store: bbftpd_storemkdir and bbftpd_storecreatefile of
-- bbftp-server/bbftpd/bbftpd_store.c with the functions that they call.
use mathlib.Core.List.{reverse}
use bbftp.Base.{
  ◌+◌, Bool, true, false, [], ◌∷◌, ◌++◌, none, some, not, pos, minus_one, eqb_ℤ, ◌==◌,
  if◌then◌else◌, length, has, text,
}
use bbftp.Wire.Codes.{tropt_dir, tropt_rfio}
use bbftp.Server.{
  M, Text, absent, present, unlink_call, mkdir_call, stat_call, create_call, close_call, pure,
  ◌>>=◌, ◌>>◌, ask, gets,
}
use bbftp.Server.Io.{malloc}
use bbftp.Server.Errno
use bbftp.Server.Files.{Result, result, no_retry, one_of, s_ifdir, s_iwusr, strip_trailing_slashes}

unfoldable pub do_mkdir : Text → M Result
unfolding one_of
do_mkdir basedir = do
  made ← ask (mkdir_call basedir) (λ os calls. os.mkdir calls basedir)
  os ← gets (λ s. s.os)
  elim made [
    | none ↦ pure (pos 0, [])
    | some e ↦ do
      found ← ask (stat_call basedir) (λ os calls. os.stat calls basedir)
      elim found [
        | present st ↦
            if has st.mode s_ifdir
            then pure (pos 0, [])
            else result minus_one (basedir ++ text " exists but is not a directory")
        | absent _ ↦
            result
              (no_retry (
                one_of e (
                  Errno.eacces ∷ Errno.edquot ∷ Errno.enospc ∷ Errno.eloop ∷ Errno.enametoolong
                  ∷ Errno.enotdir ∷ Errno.erofs ∷ Errno.enoent ∷ Errno.eexist ∷ [])))
              (text "Error creation directory "
                ++ (basedir ++ (text " (" ++ (os.strerror e ++ text ")"))))
      ]
  ]

-- One character of the path in bbftpd_storemkdir: `slash` says what it is, `skipping` whether leading
-- slashes are passed over, `before` is the path up to it, and `next` goes on behind it.
unfoldable pub mkdir_step : Bool → Bool → Text → (Bool → M Result) → M Result
mkdir_step false skipping before next = next false
mkdir_step true true before next = next true
mkdir_step true false before next = do
  r ← do_mkdir before
  if eqb_ℤ r.0 (pos 0) then next true else pure r

-- The loop over the slashes of the path.
unfoldable pub mkdir_loop : Bool → Text → Text → M Result
mkdir_loop skipping before [] = pure (pos 0, [])
mkdir_loop skipping before (c ∷ rest) =
    mkdir_step (c == b'/') skipping before (λ skip. mkdir_loop skip (before ++ (c ∷ [])) rest)

unfoldable pub storemkdir : Text → Bool → M Result
storemkdir dirname recursif = do
  options ← gets (λ s. s.transferoption)
  os ← gets (λ s. s.os)
  if has options tropt_rfio
      then result minus_one (text "Fail to mkdir : RFIO not supported")
      else (do
        copied ← malloc (length dirname + 1)
        if copied
            then (do
              let dirpath = strip_trailing_slashes dirname
              r ← if recursif then mkdir_loop true [] dirpath else pure (pos 0, [])
              if eqb_ℤ r.0 (pos 0) then do_mkdir dirpath else pure r)
            else result (pos 1)
                (text "Error allocating memory for dirpath : " ++ os.strerror Errno.enomem))

unfoldable pub do_check_dir : Text → M Result
unfolding one_of
do_check_dir dir = do
  found ← ask (stat_call dir) (λ os calls. os.stat calls dir)
  os ← gets (λ s. s.os)
  options ← gets (λ s. s.transferoption)
  elim found [
    | present st ↦
        if has st.mode s_ifdir
        then pure (pos 0, [])
        else result minus_one (dir ++ text " is a not a directory")
    | absent e ↦
        let stating = text "Error stating directory " ++ (dir ++ (text " : " ++ os.strerror e)) in
        if one_of e (Errno.eacces ∷ Errno.eloop ∷ Errno.enametoolong ∷ Errno.enotdir ∷ [])
        then result minus_one stating
        else if e == Errno.enoent
        then (if has options tropt_dir
            then storemkdir dir true
            else result minus_one
                (text "Directory (" ++ (dir ++ text ") creation needed but TROPT_DIR not set")))
        else result (pos 1) stating
  ]

-- The text before the last slash, on the path from its end; nothing where there is no slash.
unfoldable pub before_slash : Text → Text
before_slash [] = []
before_slash (c ∷ rest) = if c == b'/' then rest else before_slash rest

-- The directory of a path, empty where the C code finds lastslash <= 0: the current directory or
-- the root.
unfoldable pub directory_of : Text → Text
unfolding before_slash
directory_of path = reverse (before_slash (reverse path))

unfoldable pub ends_in_slash : Text → Bool
ends_in_slash [] = false
ends_in_slash (c ∷ []) = c == b'/'
ends_in_slash (c ∷ d ∷ rest) = ends_in_slash (d ∷ rest)

-- The file is made anew: the old one is unlinked, and an empty one is created and closed.
unfoldable pub recreate : Text → M Result
unfolding one_of
recreate path = do
  os ← gets (λ s. s.os)
  ask (unlink_call path) (λ os calls. os.unlink calls path)
  made ← ask (create_call path) (λ os calls. os.create calls path)
  elim made [
    | some e ↦
        result
          (no_retry (
            one_of e (
              Errno.eacces ∷ Errno.edquot ∷ Errno.enospc ∷ Errno.eloop ∷ Errno.enametoolong
              ∷ Errno.enotdir ∷ [])))
          (text "Error creation file " ++ (path ++ (text " : " ++ (os.strerror e ++ text " "))))
    | none ↦ do
      closed ← ask (close_call path) (λ os calls. os.close calls path)
      elim closed [
        | none ↦ pure (pos 0, [])
        | some e ↦ do
          ask (unlink_call path) (λ os calls. os.unlink calls path)
          result (no_retry (e == Errno.enospc))
              (text "Error closing file " ++ (path ++ (text " : " ++ (os.strerror e ++ text " "))))
      ]
  ]

-- The check of the file itself, once its directory is there.
unfoldable pub check_file : Text → M Result
unfolding one_of
check_file path = do
  os ← gets (λ s. s.os)
  found ← ask (stat_call path) (λ os calls. os.stat calls path)
  elim found [
    | absent e ↦
        if e == Errno.enoent
        then recreate path
        else result
            (no_retry
              (one_of e (Errno.eacces ∷ Errno.eloop ∷ Errno.enametoolong ∷ Errno.enotdir ∷ [])))
            (text "Error stating file " ++ (path ++ (text " : " ++ (os.strerror e ++ text " "))))
    | present st ↦
        if has st.mode s_ifdir
        then result minus_one (text "File " ++ (path ++ text " is a directory"))
        else if not (has st.mode s_iwusr)
        then result minus_one (text "File " ++ (path ++ text " is not writable"))
        else recreate path
  ]

unfoldable pub storecreatefile : Text → M Result
storecreatefile filename = do
  options ← gets (λ s. s.transferoption)
  os ← gets (λ s. s.os)
  if has options tropt_rfio
      then result minus_one (text "Fail to create file : RFIO not supported")
      else if length filename == 0
      then result minus_one (text "filepath is empty")
      else (do
        copied ← malloc (length filename + 1)
        if not copied
            then result (pos 1)
                (text "Error allocating memory for filepath : " ++ os.strerror Errno.enomem)
            else if ends_in_slash filename
            then result minus_one (text "Filename " ++ (filename ++ text " ends with a /"))
            else (do
              r ←
                  if length (directory_of filename) == 0
                  then pure (pos 0, [])
                  else do_check_dir (directory_of filename)
              if eqb_ℤ r.0 (pos 0) then check_file filename else pure r))
