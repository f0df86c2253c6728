-- ===== src/Channel/Read.antt =====
-- readmessage, and the loop that it shares with discardmessage (bbftp-server/bbftpd/bbftpd_message.c).
use bbftp.Base.{
  ℕ, zero, suc, ◌+◌, ◌-◌, ◌≤◌, ◌<◌, min, ◌≡◌, refl, Bool, true, false, List, [], ◌∷◌, ◌++◌, arith,
  pos, length, length-append, take, drop, take-append-drop, length-take, length-drop, split-eq, All,
  inl, inr,
}
use mathlib.Core.List.{append_assoc}
use bbftp.Channel.{
  SelectAnswer, ReadAnswer, ready, given, read_failed, open_gate, done, InSock, gate, read_loop,
  readmessage, readmessage_by, interrupted, try_select, expired, select_failed, eintr, Gate-cases,
  closed-ne-done,
}

-- What a run keeps: the bytes of the buffer and of the stream, in order, and the room.
module _ (again : ℕ → Bool) (room : ℕ → ℕ) where
  pub read_loop-stream :
      (inner : Bool) (left : ℕ) (got stream : List ℕ) (selects : List SelectAnswer)
      (reads : List ReadAnswer)
      → let r = read_loop again room inner left got stream selects reads in
        r.buffer ++ r.sock.stream ≡ got ++ stream
  unfolding read_loop
  read_loop-stream inner zero got stream selects reads = refl
  read_loop-stream inner (suc left) got stream selects [] =
      elim (Gate-cases (gate again inner selects)) [
        | inl (s, e) ↦ ground (arith, e)
        | inr (status, s, e) ↦ ground (arith, e)
      ]
  read_loop-stream inner (suc left) got stream selects (read_failed c ∷ reads) =
      elim (Gate-cases (gate again inner selects)) [
        | inl (s, e) ↦ ground (arith, e, read_loop-stream true (suc left) got stream s reads)
        | inr (status, s, e) ↦ ground (arith, e)
      ]
  read_loop-stream inner (suc left) got stream selects (given n ∷ reads) =
      elim (Gate-cases (gate again inner selects)) [
        | inl (s, e) ↦
            let c = min n (min (room (suc left)) (length stream)) in
            ground (
              arith,
              e,
              read_loop-stream false (suc left - c) (got ++ take c stream) (drop c stream) s reads,
              append_assoc got (take c stream) (drop c stream),
              take-append-drop c stream,
            )
        | inr (status, s, e) ↦ ground (arith, e)
      ]

  module _ (slack : ℕ) (bounded : (n : ℕ) → room (suc n) ≤ suc n + slack) where
    pub read_loop-length :
        (inner : Bool) (left : ℕ) (got stream : List ℕ)
        → (selects : List SelectAnswer) (reads : List ReadAnswer)
        → let r = read_loop again room inner left got stream selects reads in
          (length r.buffer ≤ length got + left + slack)
          × (r.status ≡ done → length got + left ≤ length r.buffer)
    unfolding read_loop
    read_loop-length inner zero got stream selects reads = ground arith
    read_loop-length inner (suc left) got stream selects [] =
        elim (Gate-cases (gate again inner selects)) [
          | inl (s, e) ↦ ground (arith, e)
          | inr (status, s, e) ↦ ground (arith, e, closed-ne-done again inner selects status s)
        ]
    read_loop-length inner (suc left) got stream selects (read_failed c ∷ reads) =
        elim (Gate-cases (gate again inner selects)) [
          | inl (s, e) ↦ ground (arith, e, read_loop-length true (suc left) got stream s reads)
          | inr (status, s, e) ↦ ground (arith, e, closed-ne-done again inner selects status s)
        ]
    read_loop-length inner (suc left) got stream selects (given n ∷ reads) =
        elim (Gate-cases (gate again inner selects)) [
          | inl (s, e) ↦
              let c = min n (min (room (suc left)) (length stream)) in
              ground (
                arith,
                e,
                bounded left,
                read_loop-length false (suc left - c) (got ++ take c stream) (drop c stream) s
                    reads,
                length-append got (take c stream),
                length-take c stream,
              )
          | inr (status, s, e) ↦ ground (arith, e, closed-ne-done again inner selects status s)
        ]

-- The statements below in one, for any test of the errnos.
pub readmessage_run :
    (again : ℕ → Bool) (sock : InSock) (n : ℕ)
    → let r = readmessage_by again sock (pos n) in
      (r.buffer ++ r.sock.stream ≡ sock.stream)
      × (length r.buffer ≤ n)
      × (r.status ≡ done
          → (r.buffer ≡ take n sock.stream)
            × (r.sock.stream ≡ drop n sock.stream)
            × (length r.buffer ≡ n))
unfolding readmessage_by
readmessage_run again sock n =
    let run = read_loop again (λ left. left) false n [] sock.stream sock.selects sock.reads in
    let kept : run.buffer ++ run.sock.stream ≡ sock.stream =
      read_loop-stream again (λ left. left) false n [] sock.stream sock.selects sock.reads in
    let (upper, lower) =
      read_loop-length again (λ left. left) 0 (λ k. omega arith) false n [] sock.stream sock.selects
        sock.reads in
    (
      kept,
      omega arith,
      λ ok.
          let full : length run.buffer ≡ n = omega (arith, lower ok) in
          let (front, back) = split-eq run.buffer run.sock.stream sock.stream n kept full in
          (front, back, full),
    )

-- Whatever the kernel answers, readmessage takes its bytes from the front of the stream, in order
-- and none twice, and at most `msglen` of them.
pub readmessage_accounts :
    (sock : InSock) (n : ℕ)
    → let r = readmessage sock (pos n) in
      (r.buffer ++ r.sock.stream ≡ sock.stream) × (length r.buffer ≤ n)
unfolding readmessage
readmessage_accounts sock n =
    ((readmessage_run interrupted sock n).0, (readmessage_run interrupted sock n).1)

-- Where readmessage reports success, the buffer has the first `msglen` bytes of the stream, all of
-- them, and the rest is still to be read.
pub readmessage_exact :
    (sock : InSock) (n : ℕ)
    → (readmessage sock (pos n)).status ≡ done
    → ((readmessage sock (pos n)).buffer ≡ take n sock.stream)
      × ((readmessage sock (pos n)).sock.stream ≡ drop n sock.stream)
      × (length (readmessage sock (pos n)).buffer ≡ n)
unfolding readmessage
readmessage_exact sock n ok = (readmessage_run interrupted sock n).2 ok

-- A kernel that makes progress: no answer but a ready descriptor, a number of bytes that is not 0,
-- or an errno after which the call is made again.
abbrev pub IsWillingSelect : (ℕ → Bool) → SelectAnswer → Type 0
IsWillingSelect again ready = Unit
IsWillingSelect again expired = ⊥
IsWillingSelect again (select_failed e) = again e ≡ true

abbrev pub IsWillingRead : ReadAnswer → Type 0
IsWillingRead (given n) = 0 < n
IsWillingRead (read_failed e) = e ≡ eintr

abbrev pub count_ready : List SelectAnswer → ℕ
count_ready [] = 0
count_ready (ready ∷ rest) = suc (count_ready rest)
count_ready (expired ∷ rest) = count_ready rest
count_ready (select_failed e ∷ rest) = count_ready rest

abbrev pub count_given : List ReadAnswer → ℕ
count_given [] = 0
count_given (given n ∷ rest) = suc (count_given rest)
count_given (read_failed e ∷ rest) = count_given rest

-- Inside the loop around read the descriptor is known to be ready.
abbrev pub credit : Bool → ℕ
credit true = 1
credit false = 0

-- The gate opens, and costs at most one ready descriptor.
pub gate_opens :
    (again : ℕ → Bool) (inner : Bool) (selects : List SelectAnswer)
    → All (IsWillingSelect again) selects
    → 0 < count_ready selects + credit inner
    → (s : List SelectAnswer) × (gate again inner selects ≡ open_gate s)
      × All (IsWillingSelect again) s
      × (count_ready selects + credit inner ≤ suc (count_ready s))
unfolding try_select
gate_opens again true selects w h = (selects, refl, w, omega arith)
gate_opens again false [] w h = absurd (omega arith)
gate_opens again false (ready ∷ rest) w h = (rest, refl, w.1, omega arith)
gate_opens again false (expired ∷ rest) w h = absurd w.0
gate_opens again false (select_failed e ∷ rest) w h =
    let (s, opened, w', c) = gate_opens again false rest w.1 h in (s, ground (arith, opened), w', c)

read_loop_completes :
    (again : ℕ → Bool) (inner : Bool) (left : ℕ) (got stream : List ℕ)
    → (selects : List SelectAnswer) (reads : List ReadAnswer) → All (IsWillingSelect again) selects
    → All IsWillingRead reads
    → left ≤ count_ready selects + credit inner
    → left ≤ count_given reads
    → left ≤ length stream
    → (read_loop again (λ k. k) inner left got stream selects reads).status ≡ done
unfolding read_loop
read_loop_completes again inner zero got stream selects reads ws wr a b c = refl
read_loop_completes again inner (suc left) got stream selects [] ws wr a b c = absurd (omega arith)
read_loop_completes again inner (suc left) got stream selects (read_failed e ∷ reads) ws wr a b c =
    let (s, opened, ws', less) = gate_opens again inner selects ws (omega arith) in
    ground
      (arith, opened, wr.0, read_loop_completes again true (suc left) got stream s reads ws' wr.1)
read_loop_completes again inner (suc left) got stream selects (given n ∷ reads) ws wr a b c =
    let (s, opened, ws', less) = gate_opens again inner selects ws (omega arith) in
    let k = min n (min (suc left) (length stream)) in
    ground (
      arith,
      opened,
      length-drop k stream,
      read_loop_completes again false (suc left - k) (got ++ take k stream) (drop k stream) s reads
          ws' wr.1,
    )

-- The statement below, for any test of the errnos.
pub readmessage_by_completes :
    (again : ℕ → Bool) (sock : InSock) (n : ℕ)
    → All (IsWillingSelect again) sock.selects
    → All IsWillingRead sock.reads
    → n ≤ count_ready sock.selects
    → n ≤ count_given sock.reads
    → n ≤ length sock.stream
    → ((readmessage_by again sock (pos n)).status ≡ done)
      × ((readmessage_by again sock (pos n)).buffer ≡ take n sock.stream)
unfolding readmessage_by
readmessage_by_completes again sock n ws wr a b c =
    let ok =
      read_loop_completes again false n [] sock.stream sock.selects sock.reads ws wr (omega arith) b
        c in
    (ok, ((readmessage_run again sock n).2 ok).0)

-- readmessage ends with success on every kernel that makes progress, once the peer has sent
-- `msglen` bytes and each of `msglen` rounds has its ready descriptor and its bytes.
pub readmessage_completes :
    (sock : InSock) (n : ℕ)
    → All (IsWillingSelect interrupted) sock.selects
    → All IsWillingRead sock.reads
    → n ≤ count_ready sock.selects
    → n ≤ count_given sock.reads
    → n ≤ length sock.stream
    → ((readmessage sock (pos n)).status ≡ done)
      × ((readmessage sock (pos n)).buffer ≡ take n sock.stream)
unfolding readmessage
readmessage_completes sock n ws wr a b c = readmessage_by_completes interrupted sock n ws wr a b c
