-- ===== src/Child/Rounds.antt =====
-- One round of the loop in which a child receives and stores, for the server
-- (bbftp-server/bbftpd/bbftpd_store.c) and the client (bbftp-client/bbftpc/bbftp_store.c) alike.
use bbftp.Base.{
  ℕ, ◌+◌, ◌≤◌, ◌≡◌, refl, sym, ap, ◌∙◌, subst, arith, Bool, List, [], ◌++◌, ◌⊎◌, inl, inr, ℤ, pos,
  length, length-take, length-drop, take, drop, take-add, drop-add, All,
}
use mathlib.Core.List.{append_assoc}
use bbftp.Channel.{InSock, Received}
use bbftp.Child.{Child, Call, M, ◌>>=◌, ◌>>◌, gets, leave, receive_by, write_file, seek_to}
use bbftp.Child.Ends.{Ends, Ends-bind}
use bbftp.Child.Sockets.{IsHonestWrite, HonestIn, ReadsWell, Reads, receive_by-Reads}
use bbftp.Child.Pieces.{bytes_of, Consecutive}
use bbftp.Child.Pieces.Writing.{At, Stored, OnZero, leave-fails, write_file-Stored}

-- What a child has to bring to a round, and keeps.
pub record Ready (start : ℕ) (s : Child) : Type 0 where
  pub incoming : HonestIn s.insock
  pub writes : All IsHonestWrite s.writes
  pub at : At start s

-- The next `n` bytes of the stream are stored.
pub record Took (n : ℕ) (s t : Child) : Type 0 where
  pub gone : bytes_of t.pieces ≡ bytes_of s.pieces ++ take n s.insock.stream
  pub stream : t.insock.stream ≡ drop n s.insock.stream
  pub enough : n ≤ length s.insock.stream
  pub outsock : t.outsock ≡ s.outsock
  pub closes : t.closes ≡ s.closes

ap2 : {a b c d : List ℕ} → a ≡ b → c ≡ d → a ++ c ≡ b ++ d
ap2 p q i = p i ++ q i

pub Took-trans : (m n : ℕ) (s t u : Child) → Took m s t → Took n t u → Took (m + n) s u
Took-trans m n s t u a b = record {
  gone =
      b.gone
      ∙ (ap2 a.gone (ap (take n) a.stream)
          ∙ (append_assoc (bytes_of s.pieces) (take m s.insock.stream)
                (take n (drop m s.insock.stream))
              ∙ ap (λ xs. bytes_of s.pieces ++ xs) (take-add m n s.insock.stream)));
  stream = b.stream ∙ (ap (drop n) a.stream ∙ drop-add m n s.insock.stream);
  enough = omega (arith, a.enough, b.enough, ap length a.stream, length-drop m s.insock.stream);
  outsock = b.outsock ∙ a.outsock;
  closes = b.closes ∙ a.closes;
}

-- What follows the read of a round.
abbrev pub store_read :
    (ℕ → Bool) → List Call → List Call → (List ℕ → M (Unit {0})) → List ℕ ⊎ ℕ → M (Unit {0})
store_read again unread unwritten rest r = elim r [
  | inr e ↦ leave unread e
  | inl bytes ↦
      gets (λ u. u.writes) >>= λ answers. write_file again unwritten answers bytes >> rest bytes
]

module _ (Q : Child → Type 0) (R : Unit {0} → Child → Type 0) (start : ℕ) where
  after_read :
      (again : ℕ → Bool) (unread unwritten : List Call) (rest : List ℕ → M (Unit {0})) (m : ℕ)
      (s : Child)
      → Ready start s
      → ((bytes : List ℕ) (t : Child)
          → length bytes ≡ m
          → Ready start t
          → Took m s t
          → Ends (rest bytes t) R (OnZero Q))
      → (r : List ℕ ⊎ ℕ) (i : InSock) → Reads m s r (record s { insock = i })
      → Ends (store_read again unread unwritten rest r (record s { insock = i })) R (OnZero Q)
  after_read again unread unwritten rest m s ready more (inr e) i h =
      leave-fails R Q unread e (record s { insock = i }) h
  after_read again unread unwritten rest m s ready more (inl bytes) i
        (same, got, left, full, honest) =
      Ends-bind (OnZero Q) (write_file again unwritten s.writes bytes (record s { insock = i })) _
        (λ _ u. Stored start bytes (record s { insock = i }) u) R
        (write_file-Stored again unwritten Q start s.writes bytes (record s { insock = i })
          ready.writes ready.at)
        λ _ u st.
          more bytes u full
            (record {
              incoming = subst HonestIn (sym (ap (λ (c : Child). c.insock) st.same)) honest;
              writes = st.honest;
              at = st.at;
            })
            (record {
              gone = st.gone ∙ ap (λ xs. bytes_of s.pieces ++ xs) got;
              stream = ap (λ (c : Child). c.insock.stream) st.same ∙ left;
              enough = omega (arith, full, ap length got, length-take m s.insock.stream);
              outsock = ap (λ (c : Child). c.outsock) st.same;
              closes = ap (λ (c : Child). c.closes) st.same;
            })

  -- What one round takes it stores; a failure ends the child with an errno.
  pub round-Took :
      (reader : InSock → ℤ → Received) (well : ReadsWell reader) (again : ℕ → Bool)
      (unread unwritten : List Call) (rest : List ℕ → M (Unit {0})) (m : ℕ) (s : Child)
      → Ready start s
      → ((bytes : List ℕ) (t : Child)
          → length bytes ≡ m
          → Ready start t
          → Took m s t
          → Ends (rest bytes t) R (OnZero Q))
      → Ends ((receive_by reader (pos m) >>= store_read again unread unwritten rest) s) R (OnZero Q)
  round-Took reader well again unread unwritten rest m s ready more =
      Ends-bind (OnZero Q) (receive_by reader (pos m) s) _ (Reads m s) R
        (receive_by-Reads (OnZero Q) reader well m s ready.incoming) λ r t h. next r t h
    where
      next :
          (r : List ℕ ⊎ ℕ) (t : Child)
          → Reads m s r t
          → Ends (store_read again unread unwritten rest r t) R (OnZero Q)
      next (inr e) t h = leave-fails R Q unread e t h
      next (inl bytes) t h =
          subst (λ u. Ends (store_read again unread unwritten rest (inl bytes) u) R (OnZero Q))
            (sym h.0)
            (after_read again unread unwritten rest m s ready more (inl bytes) t.insock
              (refl, h.1, h.2, h.3, h.4))

-- The fragment of `n` bytes is in the file, from its start on: the first bytes of the stream.
pub record Delivered (start n : ℕ) (stream : List ℕ) (t : Child) : Type 0 where
  pub consecutive : Consecutive start t.pieces
  pub gone : bytes_of t.pieces ≡ take n stream
  pub enough : n ≤ length stream

pub Took-Delivered :
    (start n : ℕ) (s t : Child)
    → s.pieces ≡ []
    → Took n s t
    → At start t
    → Delivered start n s.insock.stream t
unfolding bytes_of
Took-Delivered start n s t fresh took at = record {
  consecutive = at.0;
  gone = took.gone ∙ ap (λ ps. bytes_of ps ++ take n s.insock.stream) fresh;
  enough = took.enough;
}

-- The state in which the loop starts.
pub seek_to-Ready :
    (start : ℕ) (s : Child)
    → HonestIn s.insock
    → All IsHonestWrite s.writes
    → s.pieces ≡ []
    → Ready start (seek_to start s)
unfolding bytes_of
seek_to-Ready start s incoming writes fresh = record {
  incoming = incoming;
  writes = writes;
  at =
      subst (λ ps. Consecutive start ps × (start ≡ start + length (bytes_of ps))) (sym fresh)
        (tt, omega arith);
}
