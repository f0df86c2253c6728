-- ===== src/Channel/Write.antt =====
-- writemessage (bbftp-server/bbftpd/bbftpd_message.c).
use bbftp.Base.{
  ℕ, suc, ◌+◌, ◌≤◌, ◌<◌, ◌≡◌, refl, List, [], ◌∷◌, ◌++◌, arith, length, take, drop, Bool, true,
  false, inl, inr, All, take-append-drop, length-drop,
}
use mathlib.Core.List.{append_assoc, append-nil}
use bbftp.Channel.{
  SelectAnswer, WriteAnswer, taken, write_failed, done, OutSock, gate, Gate-cases, closed-ne-done,
  write_loop, writemessage, writemessage_by, interrupted, eintr,
}
use bbftp.Channel.Read.{IsWillingSelect, count_ready, gate_opens, credit}

write_loop-prefix :
    (again : ℕ → Bool) (inner : Bool) (bytes sent : List ℕ)
    → (selects : List SelectAnswer) (writes : List WriteAnswer)
    → let r = write_loop again inner bytes sent selects writes in
      (r.sock.sent ++ r.unsent ≡ sent ++ bytes) × (r.status ≡ done → r.unsent ≡ [])
unfolding write_loop
write_loop-prefix again inner [] sent selects writes = (refl, λ _. refl)
write_loop-prefix again inner (b ∷ bs) sent selects [] =
    elim (Gate-cases (gate again inner selects)) [
      | inl (s, e) ↦ ground (arith, e)
      | inr (status, s, e) ↦ ground (arith, e, closed-ne-done again inner selects status s)
    ]
write_loop-prefix again inner (b ∷ bs) sent selects (write_failed c ∷ writes) =
    elim (Gate-cases (gate again inner selects)) [
      | inl (s, e) ↦ ground (arith, e, write_loop-prefix again true (b ∷ bs) sent s writes)
      | inr (status, s, e) ↦ ground (arith, e, closed-ne-done again inner selects status s)
    ]
write_loop-prefix again inner (b ∷ bs) sent selects (taken n ∷ writes) =
    elim (Gate-cases (gate again inner selects)) [
      | inl (s, e) ↦ ground (
        arith,
        e,
        write_loop-prefix again false (drop n (b ∷ bs)) (sent ++ take n (b ∷ bs)) s writes,
        append_assoc sent (take n (b ∷ bs)) (drop n (b ∷ bs)),
        take-append-drop n (b ∷ bs),
      )
      | inr (status, s, e) ↦ ground (arith, e, closed-ne-done again inner selects status s)
    ]

abbrev pub IsWillingWrite : WriteAnswer → Type 0
IsWillingWrite (taken n) = 0 < n
IsWillingWrite (write_failed e) = e ≡ eintr

abbrev pub count_taken : List WriteAnswer → ℕ
count_taken [] = 0
count_taken (taken n ∷ rest) = suc (count_taken rest)
count_taken (write_failed e ∷ rest) = count_taken rest

write_loop_completes :
    (again : ℕ → Bool) (inner : Bool) (bytes sent : List ℕ)
    → (selects : List SelectAnswer) (writes : List WriteAnswer)
    → All (IsWillingSelect again) selects
    → All IsWillingWrite writes
    → length bytes ≤ count_ready selects + credit inner
    → length bytes ≤ count_taken writes
    → (write_loop again inner bytes sent selects writes).status ≡ done
unfolding write_loop
write_loop_completes again inner [] sent selects writes ws ww a b = refl
write_loop_completes again inner (x ∷ xs) sent selects [] ws ww a b = absurd (omega arith)
write_loop_completes again inner (x ∷ xs) sent selects (write_failed e ∷ writes) ws ww a b =
    let (s, opened, ws', less) = gate_opens again inner selects ws (omega arith) in
    ground (arith, opened, ww.0, write_loop_completes again true (x ∷ xs) sent s writes ws' ww.1)
write_loop_completes again inner (x ∷ xs) sent selects (taken n ∷ writes) ws ww a b =
    let (s, opened, ws', less) = gate_opens again inner selects ws (omega arith) in
    ground (
      arith,
      opened,
      length-drop n (x ∷ xs),
      write_loop_completes again false (drop n (x ∷ xs)) (sent ++ take n (x ∷ xs)) s writes ws'
          ww.1,
    )

-- What goes out, and all of it on success, for any test of the errnos.
pub writemessage_run :
    (again : ℕ → Bool) (sock : OutSock) (bytes : List ℕ)
    → let r = writemessage_by again sock bytes in
      (r.sock.sent ++ r.unsent ≡ sock.sent ++ bytes)
      × (r.status ≡ done → r.sock.sent ≡ sock.sent ++ bytes)
unfolding writemessage_by
writemessage_run again sock bytes =
    let (kept, all) = write_loop-prefix again false bytes sock.sent sock.selects sock.writes in
    (kept, λ ok. rw (all ok, append-nil) at kept)

-- The statement below, for any test of the errnos.
pub writemessage_by_completes :
    (again : ℕ → Bool) (sock : OutSock) (bytes : List ℕ)
    → All (IsWillingSelect again) sock.selects
    → All IsWillingWrite sock.writes
    → length bytes ≤ count_ready sock.selects
    → length bytes ≤ count_taken sock.writes
    → ((writemessage_by again sock bytes).status ≡ done)
      × ((writemessage_by again sock bytes).sock.sent ≡ sock.sent ++ bytes)
unfolding writemessage_by
writemessage_by_completes again sock bytes ws ww a b =
    let ok =
      write_loop_completes again false bytes sock.sent sock.selects sock.writes ws ww (omega arith)
        b in
    (ok, (writemessage_run again sock bytes).1 ok)

-- writemessage ends with success on every kernel that makes progress, given a ready descriptor and
-- an answer of write for each byte at the most.
pub writemessage_completes :
    (sock : OutSock) (bytes : List ℕ)
    → All (IsWillingSelect interrupted) sock.selects
    → All IsWillingWrite sock.writes
    → length bytes ≤ count_ready sock.selects
    → length bytes ≤ count_taken sock.writes
    → ((writemessage sock bytes).status ≡ done)
      × ((writemessage sock bytes).sock.sent ≡ sock.sent ++ bytes)
unfolding writemessage
writemessage_completes sock bytes ws ww a b =
    writemessage_by_completes interrupted sock bytes ws ww a b
