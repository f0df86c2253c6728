-- ===== src/Client/Reconnect/Ends.antt =====
-- When reconnecttoserver of bbftp-client/bbftpc/connecttoserver.c comes to an end.
use bbftp.Base.{
  ℕ, zero, suc, ◌≡◌, refl, arith, false, List, Option, none, some, ℤ, pos, eqb_ℤ, length,
}
use bbftp.Client.{Client, M, returns, waits}
use bbftp.Client.Io.{close_control}
use bbftp.Client.Reconnect.{connect_loop, settle}

-- A server that lets the client in each time but refuses what comes after: the protocol request, or
-- the directory, umask or class of service that the client had before.
abbrev pub TurnsAway : M ℤ → (Client → Type 0) → Type 0
TurnsAway do_connect P =
    (s : Client)
    → P s
    → (t u v : Client) × (do_connect s ≡ returns (pos 0) t)
      × (settle t ≡ returns false u)
      × (close_control u ≡ returns tt v)
      × P v

-- Before a server that turns the client away each time, the loop of reconnecttoserver has not come back
-- after any number of rounds: none of them counts as a try, and none sleeps.
pub connect_loop_stays :
    (do_connect : M ℤ) (P : Client → Type 0) (fuel : ℕ) (saved : Option (List ℕ)) (s : Client)
    → TurnsAway do_connect P
    → P s
    → (t : Client) × (connect_loop do_connect fuel saved s ≡ waits t) × P t
unfolding connect_loop
connect_loop_stays do_connect P zero saved s away p = (s, refl, p)
connect_loop_stays do_connect P (suc fuel) saved s away p =
    let (t, u, v, joined, unsettled, shut, q) = away s p in
    let (w, stays, r) = connect_loop_stays do_connect P fuel saved v away q in
    (w, ground (arith, joined, unsettled, shut, stays), r)

-- A network where no connection succeeds.
abbrev pub Unreachable : M ℤ → Type 0
Unreachable do_connect =
    (s : Client)
    → (r : ℤ) × (t : Client) × (do_connect s ≡ returns r t)
      × (eqb_ℤ r (pos 0) ≡ false)
      × (t.h_addr_list ≡ s.h_addr_list)

abbrev pub count_addresses : Option (List ℕ) → ℕ
count_addresses none = 0
count_addresses (some addresses) = length addresses
