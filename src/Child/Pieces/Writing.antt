-- ===== src/Child/Pieces/Writing.antt =====
-- The loop that writes what a child has received (bbftp-server/bbftpd/bbftpd_store.c and
-- bbftp-client/bbftpc/bbftp_store.c).
use bbftp.Base.{
  ℕ, ◌+◌, ◌<◌, ◌≡◌, refl, sym, ap, ◌∙◌, arith, Bool, List, [], ◌∷◌, ◌++◌, length, length-append,
  take, drop, take-append-drop, All, Bool-cases, inl, inr,
}
use mathlib.Core.List.{append_assoc, append-nil}
use bbftp.Channel.{WriteAnswer, taken, write_failed}
use bbftp.Child.{Child, Call, leave, put_piece, quota, write_file}
use bbftp.Child.Ends.{Ends, Ends-mono}
use bbftp.Child.Sockets.{IsHonestWrite}
use bbftp.Child.Pieces.{bytes_of, Consecutive, bytes_of-snoc, Consecutive-snoc}

-- The pieces lie one behind the other from the start on, up to the offset of the descriptor.
abbrev pub At : ℕ → Child → Type 0
At start s = Consecutive start s.pieces × (s.offset ≡ start + length (bytes_of s.pieces))

-- The bytes have gone into the file, and nothing else has changed.
pub record Stored (start : ℕ) (bytes : List ℕ) (s t : Child) : Type 0 where
  pub same : t ≡ record s { pieces = t.pieces; offset = t.offset; writes = t.writes }
  pub gone : bytes_of t.pieces ≡ bytes_of s.pieces ++ bytes
  pub at : At start t
  pub honest : All IsHonestWrite t.writes

-- What the exit code 0 stands for.
abbrev pub OnZero : (Child → Type 0) → ℕ → Child → Type 0
OnZero Q n t = n ≡ 0 → Q t

pub quota-pos : (e : ℕ) → 0 < e → 0 < quota e
unfolding quota
quota-pos e h = ground arith

pub leave-fails :
    (R : Unit {0} → Child → Type 0) (Q : Child → Type 0) (calls : List Call) (e : ℕ) (s : Child)
    → 0 < e
    → Ends {A = Unit {0}} (leave calls e s) R (OnZero Q)
leave-fails R Q calls e s h z = absurd (omega arith)

put_piece-At : (start : ℕ) (bytes : List ℕ) (s : Child) → At start s → At start (put_piece bytes s)
put_piece-At start bytes s h = (
  Consecutive-snoc s.pieces (record { offset = s.offset; bytes = bytes }) start h.0 h.1,
  omega (
    arith,
    h.1,
    ap length (bytes_of-snoc s.pieces (record { offset = s.offset; bytes = bytes })),
    length-append (bytes_of s.pieces) bytes,
  ),
)

Stored-after :
    (start n : ℕ) (bytes : List ℕ) (s t : Child)
    → Stored start (drop n bytes) (put_piece (take n bytes) s) t
    → Stored start bytes s t
Stored-after start n bytes s t h = record {
  same = h.same;
  gone =
      h.gone
      ∙ (ap (λ xs. xs ++ drop n bytes)
            (bytes_of-snoc s.pieces (record { offset = s.offset; bytes = take n bytes }))
          ∙ (append_assoc (bytes_of s.pieces) (take n bytes) (drop n bytes)
              ∙ ap (λ xs. bytes_of s.pieces ++ xs) (take-append-drop n bytes)));
  at = h.at;
  honest = h.honest;
}

module _ (again : ℕ → Bool) (undo : List Call) (Q : Child → Type 0) (start : ℕ) where
  -- The loop writes all the bytes, or ends the child with an errno.
  pub write_file-Stored :
      (answers : List WriteAnswer) (bytes : List ℕ) (s : Child)
      → All IsHonestWrite answers
      → At start s
      → Ends (write_file again undo answers bytes s) (λ _ t. Stored start bytes s t) (OnZero Q)
  unfolding write_file
  write_file-Stored answers [] s h a = record {
    same = refl;
    gone = sym (append-nil (bytes_of s.pieces));
    at = a;
    honest = h;
  }
  write_file-Stored [] (b ∷ bs) s h a = tt
  write_file-Stored (write_failed e ∷ answers) (b ∷ bs) s h a = elim (Bool-cases (again e)) [
    | inl yes_again ↦ rw (yes_again, write_file) (write_file-Stored answers (b ∷ bs) s h.1 a)
    | inr fatal ↦
        rw (fatal, write_file)
          (leave-fails (λ _ t. Stored start (b ∷ bs) s t) Q undo (quota e) s (quota-pos e h.0))
  ]
  write_file-Stored (taken n ∷ answers) (b ∷ bs) s h a =
      Ends-mono (write_file again undo answers (drop n (b ∷ bs)) (put_piece (take n (b ∷ bs)) s)) _
        (λ _ t. Stored start (b ∷ bs) s t) (OnZero Q)
        (write_file-Stored answers (drop n (b ∷ bs)) (put_piece (take n (b ∷ bs)) s) h.1
          (put_piece-At start (take n (b ∷ bs)) s a))
        (λ _ t k. Stored-after start n (b ∷ bs) s t k)
