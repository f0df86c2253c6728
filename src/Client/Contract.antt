-- ===== src/Client/Contract.antt =====
-- What the requests of bbftp-client/bbftpc promise to treatcommand.
use bbftp.Base.{
  ℕ, zero, suc, ◌+◌, ◌-◌, List, negsuc, ◌≡◌, refl, ◌⊎◌, inl, inr, arith, true, false, ℤ, [], ◌∷◌,
  ◌++◌, not, length, eqb_ℤ, pos, text,
}
use bbftp.Wire.{le32, encode_len}
use bbftp.Wire.Codes.{msg_ok, msg_list_v2, msg_list_repl_v2}
use bbftp.Client.{Client, Text, M, Filelist, null, dangling, filled, malloc_call}
use bbftp.Client.Io.{send, send_all, bb_ret_ok, bb_ret_conn_broken, malloc}
use bbftp.Client.Requests.{
  name_request, value_request, statistics, bbftp_cd, bbftp_mkdir, bbftp_rm, bbftp_stat,
  bbftp_statfs, bbftp_setremotecos, bbftp_setremoteumask, bbftp_lcd,
}
use bbftp.Client.Listing.{
  bbftp_list, bbftp_dir, read_filelist, set_filelist, free_all_var, free_filelist, dir_lines,
  show_filelist, next_string,
}
use bbftp.Client.Frames.{Ends, Ends-bind, Ends-mono, Ends-if, Ends-option}
use bbftp.Client.Frames.Control.{
  Closed, Closed-refl, Closed-trans, Settles, Settles-after, lost-Loses, read_text-Settles,
  request-Settles, await_answer-Settles, Settles-bind, send-Closed, send_all-Closed,
  abandon-Settles,
}

name_request-Settles :
    (code : ℕ) (name : Text) (k : Text → M ℤ) (s : Client)
    → ((bytes : Text) (t : Client) → Ends (k bytes t) (Settles t))
    → Ends (name_request code name k s) (Settles s)
unfolding name_request
name_request-Settles code name k s h =
    request-Settles _ msg_ok _ s
      λ n t. read_text-Settles n _ k t (lost-Loses bb_ret_conn_broken refl) h

value_request-Settles : (code : ℕ) (v : ℤ) (s : Client) → Ends (value_request code v s) (Settles s)
unfolding value_request
value_request-Settles code v s =
    request-Settles _ msg_ok _ s λ n t.
      read_text-Settles n _ _ t (lost-Loses bb_ret_conn_broken refl) (λ bytes u. ground arith)

read_filelist-Settles : (n : ℤ) (s : Client) → Ends (read_filelist n s) (Settles s)
unfolding read_filelist set_filelist
read_filelist-Settles n s =
    Ends-if (eqb_ℤ n (pos 0)) _ _ s _ (λ _. ground arith)
      λ _. read_text-Settles n _ _ s (λ t. ground arith) (λ bytes t. ground arith)

list-Settles : (line : Text) (s : Client) → Ends (bbftp_list line s) (Settles s)
unfolding bbftp_list free_all_var
list-Settles line s =
    Settles-bind s (send (encode_len msg_list_v2 (pos (length line + 4))) s) _ (send-Closed _ s)
      λ head t.
        Ends-if (not head) _ _ t _
          (λ _.
            Settles-bind t (free_all_var t) _ (ground arith)
              λ _ u. abandon-Settles 64 bb_ret_conn_broken u (omega arith) refl)
          (λ _.
            let parts = le32 t.transferoption ∷ line ∷ [] in
            Settles-bind t (send_all parts t) _ (send_all-Closed parts t) λ sent u.
              Ends-if sent _ _ u _
                (λ _. await_answer-Settles msg_list_repl_v2 read_filelist u read_filelist-Settles)
                (λ _. abandon-Settles 64 bb_ret_conn_broken u (omega arith) refl))

lcd-Settles : (name : Text) (s : Client) → Ends (bbftp_lcd name s) (Settles s)
unfolding bbftp_lcd bbftp.Server.Files.one_of
lcd-Settles name s = ground arith

-- bbftp_dir keeps the promise, except that without memory for the name it says that the connection is
-- broken while it is as it was, and there is no errcode.
abbrev pub DirSettles : Text → Client → ℤ → Client → Type 0
DirSettles name s r t =
    Settles s r t
    ⊎ ((s.os.malloc s.calls (length name + 3) ≡ false)
        × ((r ≡ bb_ret_conn_broken) × (Closed 0 s t × (t.errcode ≡ s.errcode))))

free_filelist-Settles :
    (r : ℤ) (list : Filelist) (s t : Client)
    → Settles s r t
    → Ends (free_filelist r list t) (Settles s)
unfolding free_filelist
free_filelist-Settles r null s t h = h
free_filelist-Settles r dangling s t h = tt
free_filelist-Settles r (filled bytes) s t h = h

statistics-Closed : (line : Text) (s : Client) → Ends (statistics line s) (λ _ t. Closed 0 s t)
unfolding statistics
statistics-Closed line s = ground arith

dir_lines-Closed :
    (fuel left : ℕ) (buffer : List ℕ) (s : Client)
    → Ends (dir_lines fuel left buffer s) (λ _ t. Closed 0 s t)
unfolding dir_lines
dir_lines-Closed fuel zero buffer s = Closed-refl s
dir_lines-Closed zero (suc left) buffer s = Closed-refl s
dir_lines-Closed (suc fuel) (suc left) buffer s =
    Ends-option (next_string buffer) _ _ s _ (λ _. tt)
      λ (name, more) _.
        Ends-option (next_string more) _ _ s _ (λ _. tt)
          λ (kind, rest) _.
            let line = kind ++ (text " " ++ (name ++ text "\n")) in
            Ends-bind (statistics line s) _ _ _ (statistics-Closed line s) λ _ t p.
              Ends-mono (dir_lines fuel (suc left - length name - 1 - length kind - 1) rest t) _ _
                (dir_lines-Closed fuel (suc left - length name - 1 - length kind - 1) rest t)
                λ _ u q. Closed-trans s t u p q

show_filelist-Closed :
    (list : Filelist) (s : Client) → Ends (show_filelist list s) (λ _ t. Closed 0 s t)
unfolding show_filelist
show_filelist-Closed null s = Closed-refl s
show_filelist-Closed dangling s = Closed-refl s
show_filelist-Closed (filled bytes) s =
    dir_lines-Closed (length bytes) (length bytes) (bytes ++ (0 ∷ [])) s

-- A success stays one when nothing is closed after it.
Settles-then :
    (s t u : Client) (r : ℤ)
    → eqb_ℤ r bb_ret_ok ≡ true
    → Settles s r t
    → Closed 0 t u
    → Settles s r u
Settles-then s t u (pos n) e h c = ground (arith, e, h.closed, c)
Settles-then s t u (negsuc n) e h c = ground (arith, e)

dir-Settles : (name : Text) (s : Client) → Ends (bbftp_dir name s) (DirSettles name s)
unfolding bbftp_dir set_filelist malloc
dir-Settles name s =
    let size = length name + 3 in
    let v = record s { filelist = null; calls = malloc_call size ∷ s.calls } in
    let line = text "dir " ++ (name ++ text "\n") in
    Ends-if (not (s.os.malloc s.calls size)) _ _ v _ (λ full. inr (ground (arith, full)))
      λ _.
        Ends-mono _ (Settles s) _
          (Ends-bind (bbftp_list (name ++ text "/*") v) _ (Settles s) (Settles s)
            (Ends-mono (bbftp_list (name ++ text "/*") v) _ _ (list-Settles (name ++ text "/*") v)
              (λ r t. Settles-after s v t r (ground arith)))
            λ r t h.
              Ends-if (eqb_ℤ r bb_ret_ok) _ _ t _
                (λ ok. Ends-bind (statistics line t) _ _ _ (statistics-Closed line t) λ _ u p.
                  Ends-bind (show_filelist t.filelist u) _ _ _ (show_filelist-Closed t.filelist u)
                    λ _ w q.
                      free_filelist-Settles r t.filelist s w
                        (Settles-then s t w r ok h (Closed-trans t u w p q)))
                (λ _. free_filelist-Settles r t.filelist s t h))
          (λ r t. inl)

-- Each request but bbftp_dir, and the change of the local directory, whatever the server and the system
-- answer: where it returns, it has closed the descriptors of the connection, once each, exactly if its
-- result says that the connection is broken; and where the result is not BB_RET_OK, errcode is a code that
-- is not 0. bbftp_dir does the same, except that without memory for the name with "/*" it says that the
-- connection is broken, has closed nothing and has set no errcode.
pub requests-Settles :
    (name : Text) (value : ℤ) (s : Client)
    → Ends (bbftp_cd name s) (Settles s)
      × Ends (bbftp_mkdir name s) (Settles s)
      × Ends (bbftp_rm name s) (Settles s)
      × Ends (bbftp_stat name s) (Settles s)
      × Ends (bbftp_statfs name s) (Settles s)
      × Ends (bbftp_list name s) (Settles s)
      × Ends (bbftp_dir name s) (DirSettles name s)
      × Ends (bbftp_lcd name s) (Settles s)
      × Ends (bbftp_setremotecos value s) (Settles s)
      × Ends (bbftp_setremoteumask value s) (Settles s)
unfolding bbftp_cd bbftp_mkdir bbftp_rm bbftp_stat bbftp_statfs bbftp_setremotecos
    bbftp_setremoteumask statistics
requests-Settles name value s = (
  name_request-Settles _ name _ s (λ bytes t. ground arith),
  name_request-Settles _ name _ s (λ bytes t. ground arith),
  name_request-Settles _ name _ s (λ bytes t. ground arith),
  name_request-Settles _ name _ s (λ bytes t. ground arith),
  name_request-Settles _ name _ s (λ bytes t. ground arith),
  list-Settles name s,
  dir-Settles name s,
  lcd-Settles name s,
  value_request-Settles _ value s,
  value_request-Settles _ value s,
)
