-- ===== src/Child/Sockets.antt =====
-- The sockets of a child, on a kernel whose errors have an errno other than 0: what a read or a write of
-- a message gives, for readmessage and writemessage of either program.
mod Kernel
pub use Kernel.*
use bbftp.Base.{
  ℕ, zero, suc, ◌-◌, ◌<◌, min, ◌≡◌, arith, Bool, true, false, List, [], ◌∷◌, ◌++◌, ℤ, pos, take,
  drop, length, refl, Option, none, some, ◌⊎◌, inl, inr, All, subst,
}
use bbftp.Channel.{
  InSock, OutSock, SelectAnswer, ready, expired, select_failed, ReadAnswer, given, read_failed,
  WriteAnswer, taken, write_failed, Status, done, failed, blocked, Gate, open_gate, closed_gate,
  gate, try_select, Received, Sending, read_loop, readmessage_by, write_loop, writemessage_by,
  Gate-cases,
}
use bbftp.Channel.Read.{readmessage_run}
use bbftp.Channel.Write.{writemessage_run}
use bbftp.Child.{Child, Call, seek_to, returns, waits, send_by, receive_by}
use bbftp.Child.Ends.{Ends, IsHonestCall}

-- A success gives the bytes that were asked for, and a failure an errno.
abbrev pub Got : InSock → ℕ → Received → Type 0
Got sock n r =
    HonestIn r.sock
    × IsHonestStatus r.status
    × (r.status ≡ done
        → (r.buffer ≡ take n sock.stream)
          × (r.sock.stream ≡ drop n sock.stream)
          × (length r.buffer ≡ n))

abbrev pub ReadsWell : (InSock → ℤ → Received) → Type 0
ReadsWell reader = (sock : InSock) (n : ℕ) → HonestIn sock → Got sock n (reader sock (pos n))

abbrev pub Put : OutSock → List ℕ → Sending → Type 0
Put sock bytes r =
    HonestOut r.sock
    × IsHonestStatus r.status
    × (r.status ≡ done → r.sock.sent ≡ sock.sent ++ bytes)

abbrev pub WritesWell : (OutSock → List ℕ → Sending) → Type 0
WritesWell writer =
    (sock : OutSock) (bytes : List ℕ) → HonestOut sock → Put sock bytes (writer sock bytes)

pub readmessage-ReadsWell : (again : ℕ → Bool) → ReadsWell (readmessage_by again)
unfolding readmessage_by
readmessage-ReadsWell again sock n h =
    let run =
      read_loop-honest again (λ left. left) false n [] sock.stream sock.selects sock.reads h.0
        h.1 in
    (run.0, run.1, (readmessage_run again sock n).2)

pub writemessage-WritesWell : (again : ℕ → Bool) → WritesWell (writemessage_by again)
unfolding writemessage_by
writemessage-WritesWell again sock bytes h =
    let run = write_loop-honest again false bytes sock.sent sock.selects sock.writes h.0 h.1 in
    (run.0, run.1, (writemessage_run again sock bytes).1)

-- What a child knows after a read or a write: the bytes, or an errno other than 0; and nothing else has
-- changed.
abbrev pub Reads : ℕ → Child → (List ℕ ⊎ ℕ) → Child → Type 0
Reads n s (inl bytes) t =
    (t ≡ record s { insock = t.insock })
    × (bytes ≡ take n s.insock.stream)
    × (t.insock.stream ≡ drop n s.insock.stream)
    × (length bytes ≡ n)
    × HonestIn t.insock
Reads n s (inr e) t = 0 < e

module _ (P : ℕ → Child → Type 0) where
  received :
      (status : Status) (bytes : List ℕ) (sock : InSock) (n : ℕ) (s : Child)
      → HonestIn sock
      → IsHonestStatus status
      → (status ≡ done
          → (bytes ≡ take n s.insock.stream)
            × (sock.stream ≡ drop n s.insock.stream)
            × (length bytes ≡ n))
      → Ends {A = List ℕ ⊎ ℕ}
          (let t = record s { insock = sock } in
            elim status [
              | done ↦ returns (inl bytes) t
              | failed e ↦ returns (inr e) t
              | blocked ↦ waits t
            ])
          (Reads n s)
          P
  received done bytes sock n s honest st ok = (refl, (ok refl).0, (ok refl).1, (ok refl).2, honest)
  received (failed e) bytes sock n s honest st ok = st
  received blocked bytes sock n s honest st ok = tt

  pub receive_by-Reads :
      (reader : InSock → ℤ → Received) (well : ReadsWell reader) (n : ℕ) (s : Child)
      → HonestIn s.insock
      → Ends (receive_by reader (pos n) s) (Reads n s) P
  unfolding receive_by
  receive_by-Reads reader well n s h =
      let r = reader s.insock (pos n) in
      let (honest, st, ok) = well s.insock n h in received r.status r.buffer r.sock n s honest st ok

-- What a child knows after it has sent a message.
abbrev pub Sends : List ℕ → Child → Option ℕ → Child → Type 0
Sends bytes s none t =
    (t ≡ record s { outsock = t.outsock })
    × (t.outsock.sent ≡ s.outsock.sent ++ bytes)
    × HonestOut t.outsock
Sends bytes s (some e) t = 0 < e

module _ (P : ℕ → Child → Type 0) where
  sent :
      (status : Status) (bytes : List ℕ) (sock : OutSock) (s : Child)
      → HonestOut sock
      → IsHonestStatus status
      → (status ≡ done → sock.sent ≡ s.outsock.sent ++ bytes)
      → Ends {A = Option ℕ}
          (let t = record s { outsock = sock } in
            elim status [
              | done ↦ returns none t
              | failed e ↦ returns (some e) t
              | blocked ↦ waits t
            ])
          (Sends bytes s)
          P
  sent done bytes sock s honest st ok = (refl, ok refl, honest)
  sent (failed e) bytes sock s honest st ok = st
  sent blocked bytes sock s honest st ok = tt

  pub send_by-Sends :
      (writer : OutSock → List ℕ → Sending) (well : WritesWell writer) (bytes : List ℕ) (s : Child)
      → HonestOut s.outsock
      → Ends (send_by writer bytes s) (Sends bytes s) P
  unfolding send_by
  send_by-Sends writer well bytes s h =
      let r = writer s.outsock bytes in
      let (honest, st, ok) = well s.outsock bytes h in sent r.status bytes r.sock s honest st ok

-- The record of calls and the offset are not the kernel's.
pub Honest-moved :
    (s : Child) (start : ℕ) (calls : List Call)
    → Honest s
    → Honest (record s { calls = calls }) × Honest (record (seek_to start s) { calls = calls })
Honest-moved s start calls h = (
  record {
    incoming = h.incoming;
    outgoing = h.outgoing;
    reads = h.reads;
    writes = h.writes;
    stats = h.stats;
    opens = h.opens;
    seeks = h.seeks;
    selects = h.selects;
    accepts = h.accepts;
    closes = h.closes;
  },
  record {
    incoming = h.incoming;
    outgoing = h.outgoing;
    reads = h.reads;
    writes = h.writes;
    stats = h.stats;
    opens = h.opens;
    seeks = h.seeks;
    selects = h.selects;
    accepts = h.accepts;
    closes = h.closes;
  },
)
