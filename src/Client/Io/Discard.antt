-- ===== src/Client/Io/Discard.antt =====
-- discardmessage of bbftp-client/bbftpc/readmessage.c, which reads in pieces of at most 256 bytes.
use bbftp.Base.{
  ℕ, zero, suc, ◌+◌, ◌-◌, ◌≤◌, min, ◌≡◌, refl, ◌∙◌, ap, sym, arith, List, [], ◌∷◌, ℤ, pos, pos_part,
  drop,
}
use bbftp.Channel.{InSock, Status, done, failed, blocked}
use bbftp.Channel.Read.{readmessage_run}
use bbftp.Client.Io.{readmessage, retried}

-- The loop with `left` = msglen - nread, on fuel: each round takes a byte at least.
unfoldable pub discard_loop : ℕ → ℕ → InSock → InSock × Status
discard_loop fuel zero sock = (sock, done)
discard_loop zero (suc left) sock = (sock, blocked)
discard_loop (suc fuel) (suc left) sock =
    let dn = min 256 (suc left) in
    let r = readmessage sock (pos dn) in
    let rest = discard_loop fuel (suc left - dn) r.sock in
    elim r.status [ done ↦ rest | failed e ↦ (r.sock, failed e) | blocked ↦ (r.sock, blocked) ]

unfoldable pub discardmessage : InSock → ℤ → InSock × Status
discardmessage sock msglen = discard_loop (pos_part msglen) (pos_part msglen) sock

drop-nil : (n : ℕ) → drop {A = ℕ} n [] ≡ []
drop-nil zero = refl
drop-nil (suc n) = refl

drop-drop : (m n : ℕ) (xs : List ℕ) → drop n (drop m xs) ≡ drop (m + n) xs
drop-drop zero n xs = let e : 0 + n ≡ n = omega arith in ap (λ k. drop k xs) (sym e)
drop-drop (suc m) n [] = ground (arith, drop-nil n, drop-nil (suc m + n))
drop-drop (suc m) n (x ∷ xs) =
    let e : suc m + n ≡ suc (m + n) = omega arith in
    drop-drop m n xs ∙ ap (λ k. drop k (x ∷ xs)) (sym e)

discard_loop-drop :
    (fuel left : ℕ) (sock : InSock)
    → left ≤ fuel
    → (discard_loop fuel left sock).1 ≡ done
    → (discard_loop fuel left sock).0.stream ≡ drop left sock.stream
unfolding discard_loop readmessage
discard_loop-drop fuel zero sock h ok = refl
discard_loop-drop zero (suc left) sock h ok = absurd (omega arith)
discard_loop-drop (suc fuel) (suc left) sock h ok =
    let dn = min 256 (suc left) in
    let run = readmessage_run retried sock dn in
    let sum : dn + (suc left - dn) ≡ suc left = omega arith in
    let far = drop-drop dn (suc left - dn) sock.stream in
    ground (
      arith,
      run.2,
      sum,
      far,
      discard_loop-drop fuel (suc left - dn) (readmessage sock (pos dn)).sock (omega arith),
    )

-- Where discardmessage of the client returns 0, it has taken exactly msglen bytes from the stream, so
-- that the next message is read from its first byte.
pub discardmessage_exact :
    (sock : InSock) (n : ℕ)
    → (discardmessage sock (pos n)).1 ≡ done
    → (discardmessage sock (pos n)).0.stream ≡ drop n sock.stream
unfolding discardmessage
discardmessage_exact sock n = discard_loop-drop n n sock (omega arith)
