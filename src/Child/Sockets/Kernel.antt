-- ===== src/Child/Sockets/Kernel.antt =====
-- A kernel whose errors have an errno other than 0, and that it stays one through the loops over a socket
-- of bbftpd_message.c and of readmessage.c and writemessage.c.
use bbftp.Base.{
  ℕ, zero, suc, ◌-◌, ◌<◌, min, arith, Bool, true, false, List, [], ◌∷◌, ◌++◌, take, drop, length,
  inl, inr, All, subst,
}
use bbftp.Channel.{
  InSock, OutSock, SelectAnswer, ready, expired, select_failed, ReadAnswer, given, read_failed,
  WriteAnswer, taken, write_failed, Status, done, failed, blocked, Gate, open_gate, closed_gate,
  gate, try_select, Received, Sending, read_loop, write_loop, Gate-cases,
}
use bbftp.Child.{Child}
use bbftp.Child.Ends.{IsHonestCall}

abbrev pub IsHonestSelect : SelectAnswer → Type 0
IsHonestSelect ready = Unit
IsHonestSelect expired = Unit
IsHonestSelect (select_failed e) = 0 < e

abbrev pub IsHonestRead : ReadAnswer → Type 0
IsHonestRead (given n) = Unit
IsHonestRead (read_failed e) = 0 < e

abbrev pub IsHonestWrite : WriteAnswer → Type 0
IsHonestWrite (taken n) = Unit
IsHonestWrite (write_failed e) = 0 < e

abbrev pub IsHonestStatus : Status → Type 0
IsHonestStatus done = Unit
IsHonestStatus (failed e) = 0 < e
IsHonestStatus blocked = Unit

abbrev pub HonestIn : InSock → Type 0
HonestIn sock = All IsHonestSelect sock.selects × All IsHonestRead sock.reads

abbrev pub HonestOut : OutSock → Type 0
HonestOut sock = All IsHonestSelect sock.selects × All IsHonestWrite sock.writes

-- What a kernel that keeps to its manual answers to a child.
pub record Honest (s : Child) : Type 0 where
  pub incoming : HonestIn s.insock
  pub outgoing : HonestOut s.outsock
  pub reads : All IsHonestRead s.reads
  pub writes : All IsHonestWrite s.writes
  pub stats : All IsHonestCall s.stats
  pub opens : All IsHonestCall s.opens
  pub seeks : All IsHonestCall s.seeks
  pub selects : All IsHonestSelect s.selects
  pub accepts : All IsHonestCall s.accepts
  pub closes : All IsHonestCall s.closes

abbrev pub HonestGate : Gate → Type 0
HonestGate (open_gate s) = All IsHonestSelect s
HonestGate (closed_gate status s) = All IsHonestSelect s × IsHonestStatus status

pub try_select-honest :
    (again : ℕ → Bool) (selects : List SelectAnswer)
    → All IsHonestSelect selects
    → HonestGate (try_select again selects)
unfolding try_select
try_select-honest again [] h = (tt, tt)
try_select-honest again (ready ∷ rest) h = h.1
try_select-honest again (expired ∷ rest) h = (h.1, omega arith)
try_select-honest again (select_failed e ∷ rest) h =
    ground (arith, try_select-honest again rest h.1)

pub gate-honest :
    (again : ℕ → Bool) (inner : Bool) (selects : List SelectAnswer)
    → All IsHonestSelect selects
    → HonestGate (gate again inner selects)
gate-honest again true selects h = h
gate-honest again false selects h = try_select-honest again selects h

abbrev pub HonestRun : Received → Type 0
HonestRun r = HonestIn r.sock × IsHonestStatus r.status

pub read_loop-honest :
    (again : ℕ → Bool) (room : ℕ → ℕ) (inner : Bool) (left : ℕ) (got stream : List ℕ)
    (selects : List SelectAnswer) (reads : List ReadAnswer)
    → All IsHonestSelect selects
    → All IsHonestRead reads
    → HonestRun (read_loop again room inner left got stream selects reads)
unfolding read_loop
read_loop-honest again room inner zero got stream selects reads hs hr = ((hs, hr), tt)
read_loop-honest again room inner (suc left) got stream selects [] hs hr =
    elim (Gate-cases (gate again inner selects)) [
      | inl (s, e) ↦
          let g = subst HonestGate e (gate-honest again inner selects hs) in
          rw (e, read_loop) ((g, tt), tt)
      | inr (status, s, e) ↦
          let g = subst HonestGate e (gate-honest again inner selects hs) in
          rw (e, read_loop) ((g.0, tt), g.1)
    ]
read_loop-honest again room inner (suc left) got stream selects (read_failed c ∷ reads) hs hr =
    elim (Gate-cases (gate again inner selects)) [
      | inl (s, e) ↦
          let g = subst HonestGate e (gate-honest again inner selects hs) in
          ground (
            arith,
            e,
            g,
            hr.0,
            hr.1,
            read_loop-honest again room true (suc left) got stream s reads g hr.1,
          )
      | inr (status, s, e) ↦
          let g = subst HonestGate e (gate-honest again inner selects hs) in
          rw (e, read_loop) ((g.0, hr), g.1)
    ]
read_loop-honest again room inner (suc left) got stream selects (given n ∷ reads) hs hr =
    elim (Gate-cases (gate again inner selects)) [
      | inl (s, e) ↦
          let g = subst HonestGate e (gate-honest again inner selects hs) in
          let c = min n (min (room (suc left)) (length stream)) in
          ground (
            arith,
            e,
            g,
            hr.1,
            read_loop-honest again room false (suc left - c) (got ++ take c stream) (drop c stream)
                s reads g hr.1,
          )
      | inr (status, s, e) ↦
          let g = subst HonestGate e (gate-honest again inner selects hs) in
          rw (e, read_loop) ((g.0, hr), g.1)
    ]

abbrev pub HonestSending : Sending → Type 0
HonestSending r = HonestOut r.sock × IsHonestStatus r.status

pub write_loop-honest :
    (again : ℕ → Bool) (inner : Bool) (bytes sent : List ℕ) (selects : List SelectAnswer)
    (writes : List WriteAnswer)
    → All IsHonestSelect selects
    → All IsHonestWrite writes
    → HonestSending (write_loop again inner bytes sent selects writes)
unfolding write_loop
write_loop-honest again inner [] sent selects writes hs hw = ((hs, hw), tt)
write_loop-honest again inner (b ∷ bs) sent selects [] hs hw =
    elim (Gate-cases (gate again inner selects)) [
      | inl (s, e) ↦
          let g = subst HonestGate e (gate-honest again inner selects hs) in
          rw (e, write_loop) ((g, tt), tt)
      | inr (status, s, e) ↦
          let g = subst HonestGate e (gate-honest again inner selects hs) in
          rw (e, write_loop) ((g.0, tt), g.1)
    ]
write_loop-honest again inner (b ∷ bs) sent selects (write_failed c ∷ writes) hs hw =
    elim (Gate-cases (gate again inner selects)) [
      | inl (s, e) ↦
          let g = subst HonestGate e (gate-honest again inner selects hs) in
          ground
            (arith, e, g, hw.0, hw.1, write_loop-honest again true (b ∷ bs) sent s writes g hw.1)
      | inr (status, s, e) ↦
          let g = subst HonestGate e (gate-honest again inner selects hs) in
          rw (e, write_loop) ((g.0, hw), g.1)
    ]
write_loop-honest again inner (b ∷ bs) sent selects (taken n ∷ writes) hs hw =
    elim (Gate-cases (gate again inner selects)) [
      | inl (s, e) ↦
          let g = subst HonestGate e (gate-honest again inner selects hs) in
          ground (
            arith,
            e,
            g,
            hw.1,
            write_loop-honest again false (drop n (b ∷ bs)) (sent ++ take n (b ∷ bs)) s writes g
                hw.1,
          )
      | inr (status, s, e) ↦
          let g = subst HonestGate e (gate-honest again inner selects hs) in
          rw (e, write_loop) ((g.0, hw), g.1)
    ]
