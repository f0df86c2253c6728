-- ===== src/Client/Children/Tests.antt =====
-- The children of the client at concrete inputs.
use bbftp.Base.{ℕ, ◌≡◌, refl, [], ◌∷◌, false, Option, none, some, pos}
use bbftp.Channel.{ready, given, taken}
use bbftp.Child.{Child, Outcome, returns, exits, waits, spins, attempt, send_by}
use bbftp.Client.Children.{
  retr_child, retr_rounds, round_amount, pass_on, close_inherited, await_peer, take_connection,
  send_data, send_loop,
}

abbrev code_of {ℓ} : {A : Type ℓ} → Outcome A → Option ℕ
code_of (returns a t) = none
code_of (exits n t) = some n
code_of (waits t) = none
code_of (spins t) = none

-- A child that is to send five bytes of a file that has two.
abbrev child : Child
child = record {
  unread = 10 ∷ 20 ∷ [];
  offset = 0;
  pieces = [];
  insock = record { stream = []; selects = []; reads = [] };
  outsock = record { sent = []; selects = ready ∷ ready ∷ []; writes = taken 9 ∷ taken 9 ∷ [] };
  reads = given 9 ∷ given 9 ∷ [];
  writes = [];
  stats = [];
  opens = none ∷ [];
  seeks = none ∷ [];
  selects = ready ∷ [];
  accepts = [];
  closes = [];
  flagsighup = [];
  errno = 0;
  calls = [];
}

-- It exits with the errno that it has inherited, which is 0, before it has waited for MSG_ACK.
short_file_exits_zero : code_of (retr_child (pos 3) false (pos 1024) 1 0 5 child) ≡ some 0
unfolding retr_child close_inherited attempt await_peer take_connection retr_rounds round_amount
    pass_on send_by send_data send_loop
short_file_exits_zero = refl
