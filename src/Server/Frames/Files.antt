-- ===== src/Server/Frames/Files.antt =====
-- The file operations change nothing but the record of system calls and the connection.
use bbftp.Base.{
  pos, not, if◌then◌else◌, ℕ, ◌+◌, length, has, refl, arith, Bool, true, false, Option, none, some,
  [], ◌∷◌, ◌++◌, ◌==◌,
}
use bbftp.Server.{Server, M, pure, Text, stat_call}
use bbftp.Wire.Codes.{tropt_rfio, msg_bad}
use bbftp.Server.Io.{reply, malloc}
use bbftp.Server.Frames.{Ends, Same, Same-bind, Same-if, reply-Same, malloc-Same}
use bbftp.Server.Files.{
  Result, storeunlink, process_steps, report_problem, store_process_transfer, unlink_quietly,
  strip_trailing_slashes,
}
use bbftp.Server.Files.Create.{
  do_mkdir, mkdir_step, mkdir_loop, storemkdir, do_check_dir, recreate, check_file, storecreatefile,
  ends_in_slash, directory_of,
}

pub storeunlink-Same :
    (name : Option Text) (s : Server) → Ends (storeunlink name s) (λ _ t. Same s t)
unfolding storeunlink
storeunlink-Same name s = ground arith

pub do_mkdir-Same : (dir : Text) (s : Server) → Ends (do_mkdir dir s) (λ _ t. Same s t)
unfolding do_mkdir
do_mkdir-Same dir s = ground arith

mkdir_step-Same :
    (slash skipping : Bool) (before : Text) (next : Bool → M Result)
    → ((k : Bool) (t : Server) → Ends (next k t) (λ _ u. Same t u))
    → (s : Server) → Ends (mkdir_step slash skipping before next s) (λ _ t. Same s t)
unfolding mkdir_step
mkdir_step-Same false skipping before next keep s = keep false s
mkdir_step-Same true true before next keep s = keep true s
mkdir_step-Same true false before next keep s =
    Same-bind s (do_mkdir before s) _ (do_mkdir-Same before s) (λ r t. ground (arith, keep true t))

mkdir_loop-Same :
    (skipping : Bool) (before rest : Text) (s : Server)
    → Ends (mkdir_loop skipping before rest s) (λ _ t. Same s t)
unfolding mkdir_loop
mkdir_loop-Same skipping before [] s = refl
mkdir_loop-Same skipping before (c ∷ rest) s =
    mkdir_step-Same (c == b'/') skipping before _
      (λ k t. mkdir_loop-Same k (before ++ (c ∷ [])) rest t) s

pub storemkdir-Same :
    (dir : Text) (recursif : Bool) (s : Server) → Ends (storemkdir dir recursif s) (λ _ t. Same s t)
unfolding storemkdir
storemkdir-Same dir recursif s = Same-if s (has s.transferoption tropt_rfio) _ _ refl (
    Same-bind s (malloc (length dir + 1) s) _ (malloc-Same _ s) (λ copied t.
      Same-if t copied _ _
        (Same-bind t
          ((if recursif then mkdir_loop true [] (strip_trailing_slashes dir) else pure (pos 0, []))
            t)
          _ (Same-if t recursif _ _ (mkdir_loop-Same true [] _ t) refl)
          (λ r u. ground (arith, do_mkdir-Same (strip_trailing_slashes dir) u)))
        refl))

do_check_dir-Same : (dir : Text) (s : Server) → Ends (do_check_dir dir s) (λ _ t. Same s t)
unfolding do_check_dir
do_check_dir-Same dir s =
    ground (arith, storemkdir-Same dir true (record s { calls = stat_call dir ∷ s.calls }))

recreate-Same : (path : Text) (s : Server) → Ends (recreate path s) (λ _ t. Same s t)
unfolding recreate
recreate-Same path s = ground arith

check_file-Same : (path : Text) (s : Server) → Ends (check_file path s) (λ _ t. Same s t)
unfolding check_file
check_file-Same path s =
    ground (arith, recreate-Same path (record s { calls = stat_call path ∷ s.calls }))

process_steps-Same : (a b : Text) (s : Server) → Ends (process_steps a b s) (λ _ t. Same s t)
unfolding process_steps
process_steps-Same a b s = ground arith

unlink_quietly-Same : (a : Text) (s : Server) → Ends (unlink_quietly a s) (λ _ t. Same s t)
unfolding unlink_quietly
unlink_quietly-Same a s = refl

report_problem-Same :
    (a : Text) (u : Bool) (problem : Option (Text × ℕ)) (s : Server)
    → Ends (report_problem a u problem s) (λ _ t. Same s t)
unfolding report_problem
report_problem-Same a u none s = refl
report_problem-Same a true (some (x, e)) s =
    Same-bind s (unlink_quietly a s) _ (unlink_quietly-Same a s)
      (λ _ t. Same-bind t (reply msg_bad _ t) _ (reply-Same msg_bad _ t) (λ _ v. refl))
report_problem-Same a false (some (x, e)) s =
    Same-bind s (reply msg_bad _ s) _ (reply-Same msg_bad _ s) (λ _ v. refl)

pub store_process_transfer-Same :
    (a b : Text) (u : Bool) (s : Server) → Ends (store_process_transfer a b u s) (λ _ t. Same s t)
unfolding store_process_transfer
store_process_transfer-Same a b u s =
    Same-bind s (process_steps a b s) _ (process_steps-Same a b s)
      (λ problem t. report_problem-Same a u problem t)

pub storecreatefile-Same :
    (path : Text) (s : Server) → Ends (storecreatefile path s) (λ _ t. Same s t)
unfolding storecreatefile
storecreatefile-Same path s = Same-if s (has s.transferoption tropt_rfio) _ _ refl (
    Same-if s (length path == 0) _ _ refl (
      Same-bind s (malloc (length path + 1) s) _ (malloc-Same _ s) (λ copied t.
        Same-if t (not copied) _ _ refl (
          Same-if t (ends_in_slash path) _ _ refl (
            Same-bind t
              ((if length (directory_of path) == 0
                  then pure (pos 0, [])
                  else do_check_dir (directory_of path))
                t)
              _ (Same-if t (length (directory_of path) == 0) _ _ refl (do_check_dir-Same _ t))
              (λ r u. ground (arith, check_file-Same path u)))))))
