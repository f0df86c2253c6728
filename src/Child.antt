-- ===== src/Child.antt =====
-- The processes that carry a fragment of a file each: the children of bbftp-server/bbftpd/bbftpd_store.c
-- and bbftpd_retr.c, and those of bbftp-client/bbftpc/bbftp_store.c and bbftp_retr.c. Here are the state
-- of a child, the ways in which it ends, and the steps that the four of them are made of.
pub mod Ends
pub mod Sockets
pub mod Pieces
pub mod Rounds
pub mod Sends
use bbftp.Base.{
  ℕ, zero, suc, ◌+◌, ◌-◌, ◌*◌, ◌%◌, ◌^◌, ◌||◌, Bool, true, false, List, [], ◌∷◌, ◌++◌, Option, none,
  some, ◌⊎◌, inl, inr, ℤ, pos, negsuc, length, take, drop, ◌==◌, if◌then◌else◌,
}
use bbftp.Channel.{
  InSock, OutSock, SelectAnswer, ReadAnswer, WriteAnswer, taken, write_failed, Received, Sending,
  done, failed, blocked, eintr,
}
use bbftp.Server.Errno

-- The calls of a child that outlast it or give something back. A listener is the socket that waits
-- for the peer; in active mode of the server, and in passive mode of the client, it is the connection.
pub data Call : Type 0 where
  sleep_call : ℕ → Call
  close_control close_listener close_other close_socket close_file unlink_file : Call

-- What went into the file at once, with its offset.
pub record Piece : Type 0 where
  pub offset : ℕ
  pub bytes : List ℕ

-- The file from the descriptor's offset on as read finds it, the offset, and what was written to it;
-- the connection; the answers of the system to the other calls, in their order, with `none` for
-- success; flagsighup at each test; errno as the child has inherited it.
pub record Child : Type 0 where
  pub unread : List ℕ
  pub offset : ℕ
  pub pieces : List Piece
  pub insock : InSock
  pub outsock : OutSock
  pub reads : List ReadAnswer
  pub writes : List WriteAnswer
  pub stats : List (Option ℕ)
  pub opens : List (Option ℕ)
  pub seeks : List (Option ℕ)
  pub selects : List SelectAnswer
  pub accepts : List (Option ℕ)
  pub closes : List (Option ℕ)
  pub flagsighup : List Bool
  pub errno : ℕ
  pub calls : List Call

-- A piece of a child returns, ends the process, waits for ever in a call, or is still in its loop after
-- the rounds that it was given.
pub data Outcome {ℓ} (A : Type ℓ) : Type ℓ where
  returns : A → Child → Outcome A
  exits : ℕ → Child → Outcome A
  waits : Child → Outcome A
  spins : Child → Outcome A

abbrev pub M {ℓ} : Type ℓ → Type ℓ
M A = Child → Outcome A

abbrev pub pure {ℓ} : {A : Type ℓ} → A → M A
pure a s = returns a s

abbrev pub continue {ℓ κ} : {A : Type ℓ} {B : Type κ} → Outcome A → (A → M B) → Outcome B
continue (returns a t) f = f a t
continue (exits n t) f = exits n t
continue (waits t) f = waits t
continue (spins t) f = spins t

infixl 5 ◌>>=◌ ◌>>◌
abbrev pub ◌>>=◌ {ℓ κ} : {A : Type ℓ} {B : Type κ} → M A → (A → M B) → M B
◌>>=◌ m f s = continue (m s) f

abbrev pub ◌>>◌ {ℓ κ} : {A : Type ℓ} {B : Type κ} → M A → M B → M B
m >> k = m >>= λ _. k

abbrev pub modify : (Child → Child) → M (Unit {0})
modify f s = returns tt (f s)

abbrev pub gets {ℓ} : {A : Type ℓ} → (Child → A) → M A
gets f s = returns (f s) s

abbrev pub block {ℓ} : {A : Type ℓ} → M A
block s = waits s

-- Calls, the last one first, and _exit.
abbrev pub leave {ℓ} : {A : Type ℓ} → List Call → ℕ → M A
leave calls code s = exits code (record s { calls = calls ++ s.calls })

abbrev pub record_calls : List Call → M (Unit {0})
record_calls calls = modify λ s. record s { calls = calls ++ s.calls }

-- A call of the system by its first answer.
unfoldable pub attempt {ℓ} : {A : Type ℓ} → List (Option ℕ) → (ℕ → M A) → M A → M A
attempt [] fail next = block
attempt (some e ∷ rest) fail next = fail e
attempt (none ∷ rest) fail next = next

-- A call that is made again after an EINTR.
unfoldable pub persist {ℓ} : {A : Type ℓ} → List (Option ℕ) → (ℕ → M A) → M A → M A
persist [] fail next = block
persist (some e ∷ rest) fail next = elim (e == eintr) [
  | true ↦ persist rest fail next
  | false ↦ fail e
]
persist (none ∷ rest) fail next = next

abbrev pub seek_to : ℕ → Child → Child
seek_to start s = record s { offset = start; unread = drop start s.unread }

-- The exit code after a failed write or open of a file that is stored.
unfoldable pub quota : ℕ → ℕ
quota e = if (e == Errno.edquot) || (e == Errno.enospc) then 255 else e

-- One message on the connection: none, or the errno.
unfoldable pub send_by : (OutSock → List ℕ → Sending) → List ℕ → M (Option ℕ)
send_by writer bytes s =
    let r = writer s.outsock bytes in
    let t = record s { outsock = r.sock } in
    elim r.status [ done ↦ returns none t | failed e ↦ returns (some e) t | blocked ↦ waits t ]

unfoldable pub receive_by : (InSock → ℤ → Received) → ℤ → M (List ℕ ⊎ ℕ)
receive_by reader amount s =
    let r = reader s.insock amount in
    let t = record s { insock = r.sock } in
    elim r.status [
      | done ↦ returns (inl r.buffer) t
      | failed e ↦ returns (inr e) t
      | blocked ↦ waits t
    ]

abbrev pub put_piece : List ℕ → Child → Child
put_piece bytes s = record s {
  pieces = s.pieces ++ (record { offset = s.offset; bytes = bytes } ∷ []);
  offset = s.offset + length bytes;
}

-- The loop that writes what was received to the file; `again` says after which errnos write is called
-- once more.
unfoldable pub write_file : (ℕ → Bool) → List Call → List WriteAnswer → List ℕ → M (Unit {0})
write_file again undo answers [] = modify λ s. record s { writes = answers }
write_file again undo [] (b ∷ bs) = block
write_file again undo (write_failed e ∷ answers) (b ∷ bs) = elim (again e) [
  | true ↦ write_file again undo answers (b ∷ bs)
  | false ↦ leave undo (quota e)
]
write_file again undo (taken n ∷ answers) (b ∷ bs) =
    modify (put_piece (take n (b ∷ bs))) >> write_file again undo answers (drop n (b ∷ bs))

-- What is left of the fragment after so many bytes: the count of C is signed.
unfoldable pub remaining : ℕ → ℤ → ℕ
remaining left (pos n) = left - n
remaining left (negsuc n) = left + suc n
