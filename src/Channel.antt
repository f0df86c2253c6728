-- ===== src/Channel.antt =====
-- bbftp-server/bbftpd/bbftpd_message.c: messages over a connected socket, read and written in pieces.
-- readmessage.c and writemessage.c of bbftp-client/bbftpc have the same loops.
-- A socket is the bytes that the peer has sent, with the answers that the kernel gives to the calls
-- of select, read and write, in their order. A loop that asks again after an answer that is not yet
-- on the list has blocked.
pub mod Read
pub mod Write
pub mod Discard
mod Tests
use bbftp.Base.{
  ℕ, zero, suc, ◌-◌, min, ◌≡◌, refl, ◌≢◌, ◌⊎◌, inl, inr, arith, Bool, true, false, List, [], ◌∷◌,
  ◌++◌, ℤ, pos_part, length, take, drop, ◌==◌, if◌then◌else◌,
}

abbrev pub eintr : ℕ
eintr = 4

abbrev pub etimedout : ℕ
etimedout = 110

abbrev pub econnreset : ℕ
econnreset = 104

-- What select returns: the descriptor is ready, the time is over, or -1 with an errno.
pub data SelectAnswer : Type 0 where
  ready expired : SelectAnswer
  select_failed : ℕ → SelectAnswer

-- What read or recv returns: up to so many bytes of what is there, or -1 with an errno.
pub data ReadAnswer : Type 0 where
  given : ℕ → ReadAnswer
  read_failed : ℕ → ReadAnswer

-- What write returns: up to so many bytes taken, or -1 with an errno.
pub data WriteAnswer : Type 0 where
  taken : ℕ → WriteAnswer
  write_failed : ℕ → WriteAnswer

-- 0, -1 with the errno that the caller finds, or no return yet.
pub data Status : Type 0 where
  done : Status
  failed : ℕ → Status
  blocked : Status

pub record InSock : Type 0 where
  pub stream : List ℕ
  pub selects : List SelectAnswer
  pub reads : List ReadAnswer

pub record OutSock : Type 0 where
  pub sent : List ℕ
  pub selects : List SelectAnswer
  pub writes : List WriteAnswer

-- try_select and the test of its result by the callers: the answers left when the descriptor is
-- ready, or the end of the caller.
pub data Gate : Type 0 where
  open_gate : List SelectAnswer → Gate
  closed_gate : Status → List SelectAnswer → Gate

-- `again` says after which errnos select is called once more.
unfoldable pub try_select : (ℕ → Bool) → List SelectAnswer → Gate
try_select again [] = closed_gate blocked []
try_select again (ready ∷ rest) = open_gate rest
try_select again (expired ∷ rest) = closed_gate (failed etimedout) rest
try_select again (select_failed e ∷ rest) =
    if again e then try_select again rest else closed_gate (failed e) rest

-- `inner` holds in the loop around read, which does not select again after an EINTR.
abbrev pub gate : (ℕ → Bool) → Bool → List SelectAnswer → Gate
gate again true selects = open_gate selects
gate again false selects = try_select again selects

-- A run of readmessage: the bytes in the buffer, the socket after it, and its status.
pub record Received : Type 0 where
  pub buffer : List ℕ
  pub sock : InSock
  pub status : Status

abbrev pub received : List ℕ → List ℕ → List SelectAnswer → List ReadAnswer → Status → Received
received got stream selects reads status = record {
  buffer = got;
  sock = record { stream = stream; selects = selects; reads = reads };
  status = status;
}

-- The loop of readmessage with `left` = msglen - nbget, and the bytes got so far. The loop of
-- discardmessage is the same text but for the room that it gives to one call.
unfoldable pub read_loop :
    (ℕ → Bool)
    → (ℕ → ℕ)
    → Bool
    → ℕ
    → List ℕ
    → List ℕ
    → List SelectAnswer
    → List ReadAnswer
    → Received
unfolding try_select
read_loop again room inner zero got stream selects reads = received got stream selects reads done
read_loop again room inner (suc left) got stream selects [] = elim (gate again inner selects) [
  | open_gate s ↦ received got stream s [] blocked
  | closed_gate status s ↦ received got stream s [] status
]
read_loop again room inner (suc left) got stream selects (read_failed e ∷ reads) =
    elim (gate again inner selects) [
      | open_gate s ↦ elim (e == eintr) [
        | true ↦ read_loop again room true (suc left) got stream s reads
        | false ↦ received got stream s reads (failed e)
      ]
      | closed_gate status s ↦ received got stream s (read_failed e ∷ reads) status
    ]
read_loop again room inner (suc left) got stream selects (given n ∷ reads) =
    elim (gate again inner selects) [
      | open_gate s ↦
          let c = min n (min (room (suc left)) (length stream)) in
          elim (c == 0) [
            | true ↦ received got stream s reads (failed econnreset)
            | false ↦
                read_loop again room false (suc left - c) (got ++ take c stream) (drop c stream) s
                  reads
          ]
      | closed_gate status s ↦ received got stream s (given n ∷ reads) status
    ]

-- The errno after which the server calls select again.
abbrev pub interrupted : ℕ → Bool
interrupted e = e == eintr

-- read is asked for the msglen - nbget bytes left. A length below 0 is no round of the loop.
unfoldable pub readmessage_by : (ℕ → Bool) → InSock → ℤ → Received
unfolding read_loop
readmessage_by again sock msglen =
    read_loop again (λ left. left) false (pos_part msglen) [] sock.stream sock.selects sock.reads

unfoldable pub readmessage : InSock → ℤ → Received
unfolding readmessage_by
readmessage sock msglen = readmessage_by interrupted sock msglen

-- recv is asked for the size of the local buffer, whatever is left to discard. The bytes that are
-- thrown away are the buffer of the run; no caller reads the errno.
unfoldable pub discardmessage : InSock → ℤ → Received
unfolding read_loop
discardmessage sock msglen =
    read_loop interrupted (λ left. 256) false (pos_part msglen) [] sock.stream sock.selects
      sock.reads

-- A run of writemessage: the socket after it, the bytes from buffer + nbsent on, and its status.
pub record Sending : Type 0 where
  pub sock : OutSock
  pub unsent : List ℕ
  pub status : Status

abbrev pub sending : List ℕ → List ℕ → List SelectAnswer → List WriteAnswer → Status → Sending
sending sent unsent selects writes status = record {
  sock = record { sent = sent; selects = selects; writes = writes };
  unsent = unsent;
  status = status;
}

-- The loop of writemessage, over the bytes still to be sent.
unfoldable pub write_loop :
    (ℕ → Bool) → Bool → List ℕ → List ℕ → List SelectAnswer → List WriteAnswer → Sending
unfolding try_select
write_loop again inner [] sent selects writes = sending sent [] selects writes done
write_loop again inner (b ∷ bs) sent selects [] = elim (gate again inner selects) [
  | open_gate s ↦ sending sent (b ∷ bs) s [] blocked
  | closed_gate status s ↦ sending sent (b ∷ bs) s [] status
]
write_loop again inner (b ∷ bs) sent selects (write_failed e ∷ writes) =
    elim (gate again inner selects) [
      | open_gate s ↦ elim (e == eintr) [
        | true ↦ write_loop again true (b ∷ bs) sent s writes
        | false ↦ sending sent (b ∷ bs) s writes (failed e)
      ]
      | closed_gate status s ↦ sending sent (b ∷ bs) s (write_failed e ∷ writes) status
    ]
write_loop again inner (b ∷ bs) sent selects (taken n ∷ writes) = elim (gate again inner selects) [
  | open_gate s ↦ elim (n == 0) [
    | true ↦ sending sent (b ∷ bs) s writes (failed econnreset)
    | false ↦ write_loop again false (drop n (b ∷ bs)) (sent ++ take n (b ∷ bs)) s writes
  ]
  | closed_gate status s ↦ sending sent (b ∷ bs) s (taken n ∷ writes) status
]

-- writemessage of a whole buffer, as its callers have it: msglen is the buffer's length.
unfoldable pub writemessage_by : (ℕ → Bool) → OutSock → List ℕ → Sending
unfolding write_loop
writemessage_by again sock bytes = write_loop again false bytes sock.sent sock.selects sock.writes

unfoldable pub writemessage : OutSock → List ℕ → Sending
unfolding writemessage_by
writemessage sock bytes = writemessage_by interrupted sock bytes

-- To split on the gate and keep the equation.
pub Gate-cases :
    (g : Gate)
    → ((s : List SelectAnswer) × (g ≡ open_gate s))
      ⊎ ((status : Status) × (s : List SelectAnswer) × (g ≡ closed_gate status s))
Gate-cases (open_gate s) = inl (s, refl)
Gate-cases (closed_gate status s) = inr (status, s, refl)

-- A closed gate never reports success.
pub closed-ne-done :
    (again : ℕ → Bool) (inner : Bool) (selects : List SelectAnswer) (status : Status)
    (s : List SelectAnswer)
    → gate again inner selects ≡ closed_gate status s
    → status ≢ done
unfolding try_select
closed-ne-done again true selects status s e d = cc
closed-ne-done again false [] status s e d = cc
closed-ne-done again false (ready ∷ rest) status s e d = cc
closed-ne-done again false (expired ∷ rest) status s e d = cc
closed-ne-done again false (select_failed c ∷ rest) status s e d =
    ground (arith, closed-ne-done again false rest status s)
