-- ===== src/Client/Children/Sockets.antt =====
-- The loops of select and recv, and of select and send, in the children of the client
-- (bbftp-client/bbftpc/bbftp_store.c and bbftp_retr.c).
use bbftp.Base.{
  ℕ, zero, suc, ◌+◌, ◌-◌, min, ◌≡◌, refl, sym, arith, List, [], ◌∷◌, ◌++◌, length, length-append,
  length-take, take, drop, take-append-drop, split-eq, All,
}
use mathlib.Core.List.{append_assoc, append-nil}
use bbftp.Channel.{
  SelectAnswer, ready, expired, select_failed, ReadAnswer, given, read_failed, WriteAnswer, taken,
  write_failed, done, Received, Sending,
}
use bbftp.Child.Sockets.{
  IsHonestSelect, IsHonestRead, IsHonestWrite, IsHonestStatus, HonestIn, HonestOut, ReadsWell,
  WritesWell,
}
use bbftp.Client.Children.{recv_loop, recv_data, send_loop, send_data}

-- A run loses no byte, and takes `left` of them where it succeeds.
abbrev Runs : ℕ → List ℕ → List ℕ → Received → Type 0
Runs left got stream r =
    HonestIn r.sock
    × IsHonestStatus r.status
    × (r.buffer ++ r.sock.stream ≡ got ++ stream)
    × (r.status ≡ done → length r.buffer ≡ length got + left)

recv_loop-Runs :
    (left : ℕ) (got stream : List ℕ) (selects : List SelectAnswer) (reads : List ReadAnswer)
    → All IsHonestSelect selects
    → All IsHonestRead reads
    → Runs left got stream (recv_loop left got stream selects reads)
unfolding recv_loop
recv_loop-Runs zero got stream selects reads hs hr = ((hs, hr), tt, refl, λ _. omega arith)
recv_loop-Runs (suc left) got stream [] reads hs hr = ((hs, hr), tt, refl, λ e. cc)
recv_loop-Runs (suc left) got stream (expired ∷ ss) reads hs hr =
    ((hs.1, hr), omega arith, refl, λ e. cc)
recv_loop-Runs (suc left) got stream (select_failed e ∷ ss) reads hs hr =
    ((hs.1, hr), hs.0, refl, λ e. cc)
recv_loop-Runs (suc left) got stream (ready ∷ ss) [] hs hr = ((hs.1, hr), tt, refl, λ e. cc)
recv_loop-Runs (suc left) got stream (ready ∷ ss) (read_failed e ∷ reads) hs hr =
    ((hs.1, hr.1), hr.0, refl, λ e. cc)
recv_loop-Runs (suc left) got stream (ready ∷ ss) (given n ∷ reads) hs hr =
    let c = min n (min (suc left) (length stream)) in
    ground (
      arith,
      hs.1,
      hr.1,
      recv_loop-Runs (suc left - c) (got ++ take c stream) (drop c stream) ss reads hs.1 hr.1,
      append_assoc got (take c stream) (drop c stream),
      take-append-drop c stream,
      length-append got (take c stream),
      length-take c stream,
    )

pub recv_data-well : ReadsWell recv_data
unfolding recv_data
recv_data-well sock n h =
    let run = recv_loop n [] sock.stream sock.selects sock.reads in
    let (honest, st, kept, full) =
      recv_loop-Runs n [] sock.stream sock.selects sock.reads h.0 h.1 in
    (
      honest,
      st,
      λ ok.
          let all : length run.buffer ≡ n = omega (arith, full ok) in
          let (front, back) = split-eq run.buffer run.sock.stream sock.stream n kept all in
          (front, back, all),
    )

abbrev Pushes : List ℕ → List ℕ → Sending → Type 0
Pushes bytes sent r =
    HonestOut r.sock × IsHonestStatus r.status × (r.status ≡ done → r.sock.sent ≡ sent ++ bytes)

send_loop-Pushes :
    (bytes sent : List ℕ) (selects : List SelectAnswer) (writes : List WriteAnswer)
    → All IsHonestSelect selects
    → All IsHonestWrite writes
    → Pushes bytes sent (send_loop bytes sent selects writes)
unfolding send_loop
send_loop-Pushes [] sent selects writes hs hw = ((hs, hw), tt, λ _. sym (append-nil sent))
send_loop-Pushes (b ∷ bs) sent [] writes hs hw = ((hs, hw), tt, λ e. cc)
send_loop-Pushes (b ∷ bs) sent (expired ∷ ss) writes hs hw = ((hs.1, hw), omega arith, λ e. cc)
send_loop-Pushes (b ∷ bs) sent (select_failed e ∷ ss) writes hs hw = ((hs.1, hw), hs.0, λ e. cc)
send_loop-Pushes (b ∷ bs) sent (ready ∷ ss) [] hs hw = ((hs.1, hw), tt, λ e. cc)
send_loop-Pushes (b ∷ bs) sent (ready ∷ ss) (write_failed e ∷ writes) hs hw =
    ((hs.1, hw.1), hw.0, λ e. cc)
send_loop-Pushes (b ∷ bs) sent (ready ∷ ss) (taken n ∷ writes) hs hw = ground (
  arith,
  hs.1,
  hw.1,
  send_loop-Pushes (drop n (b ∷ bs)) (sent ++ take n (b ∷ bs)) ss writes hs.1 hw.1,
  append_assoc sent (take n (b ∷ bs)) (drop n (b ∷ bs)),
  take-append-drop n (b ∷ bs),
)

pub send_data-well : WritesWell send_data
unfolding send_data
send_data-well sock bytes h = send_loop-Pushes bytes sock.sent sock.selects sock.writes h.0 h.1
