-- ===== src/Server/Children/Short.antt =====
-- A file that is shorter than the fragment, in the child of a retrieval
-- (bbftp-server/bbftpd/bbftpd_retr.c).
use bbftp.Base.{
  ℕ, suc, ◌-◌, min, ◌≡◌, sym, subst, arith, false, List, [], ◌∷◌, ℤ, length, drop, take-nil, All,
}
use bbftp.Channel.{ReadAnswer, given, read_failed, writemessage, writemessage_by, write_loop}
use bbftp.Child.{
  Child, Outcome, returns, exits, waits, spins, ◌>>=◌, ◌>>◌, modify, close_socket, close_file,
  send_by,
}
use bbftp.Child.Sends.{send_next}
use bbftp.Server.Children.{send_header, retr_rounds, num_to_read}

abbrev pub Waiting {ℓ} : {A : Type ℓ} → Outcome A → Type 0
Waiting (returns a t) = ⊥
Waiting (exits n t) = ⊥
Waiting (waits t) = Unit
Waiting (spins t) = ⊥

-- An answer of read that is no error.
abbrev pub IsGiven : ReadAnswer → Type 0
IsGiven (given n) = Unit
IsGiven (read_failed e) = ⊥

at_end :
    (kb : ℤ) (reads : List ReadAnswer) (left : ℕ) (s : Child)
    → All IsGiven reads
    → Waiting (retr_rounds false kb reads (suc left) (record s { unread = [] }))
unfolding retr_rounds send_header send_by writemessage writemessage_by write_loop
at_end kb [] left s h = tt
at_end kb (read_failed e ∷ reads) left s h = absurd h.0
at_end kb (given n ∷ reads) left s h =
    subst
      (λ got. Waiting (
        (modify (λ u. record u { unread = drop (length got) u.unread })
            >> (send_by writemessage got
                >>= send_next (close_socket ∷ close_file ∷ [])
                    (retr_rounds false kb reads (suc left - length got))))
          (record s { unread = [] })))
      (sym (take-nil (min (suc n) (num_to_read kb (suc left)))))
      (let whole : suc left ≡ suc left - 0 = omega arith in
        subst (λ k. Waiting (retr_rounds false kb reads k (record s { unread = [] }))) whole
          (at_end kb reads left s h.1))

-- A child of a retrieval without TROPT_GZIP that finds the end of the file before the end of its
-- fragment, as where the file has become shorter, reads on for ever: whatever the number of its reads, it
-- is waiting for the next one, and has neither left the loop nor exited.
pub retr_rounds_stuck :
    (kb : ℤ) (reads : List ReadAnswer) (left : ℕ) (s : Child)
    → s.unread ≡ []
    → All IsGiven reads
    → Waiting (retr_rounds false kb reads (suc left) s)
retr_rounds_stuck kb reads left s e h =
    subst (λ unread. Waiting (retr_rounds false kb reads (suc left) (record s { unread = unread })))
      (sym e) (at_end kb reads left s h)
