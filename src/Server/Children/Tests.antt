-- ===== src/Server/Children/Tests.antt =====
-- The children of the server at concrete inputs.
use bbftp.Base.{◌*◌, ◌^◌, refl, arith, [], ◌∷◌, true, false, none, some, pos}
use bbftp.Channel.{ready, given, taken}
use bbftp.Child.{Child}
use bbftp.Child.Ends.{Ends}
use bbftp.Server.Children.{store_rounds, retr_rounds}
use bbftp.Server.Children.Huge.{Endless, store_rounds-Endless}
use bbftp.Server.Children.Short.{Waiting, retr_rounds_stuck}

-- A child whose peer has sent three bytes, which come in two reads, and whose file is empty.
abbrev child : Child
child = record {
  unread = [];
  offset = 0;
  pieces = [];
  insock = record {
    stream = 10 ∷ 20 ∷ 30 ∷ [];
    selects = ready ∷ ready ∷ [];
    reads = given 2 ∷ given 9 ∷ [];
  };
  outsock = record { sent = []; selects = ready ∷ []; writes = taken 8 ∷ [] };
  reads = given 9 ∷ given 9 ∷ [];
  writes = taken 1 ∷ taken 9 ∷ [];
  stats = none ∷ [];
  opens = some 4 ∷ none ∷ [];
  seeks = none ∷ [];
  selects = [];
  accepts = none ∷ [];
  closes = [];
  flagsighup = false ∷ true ∷ [];
  errno = 0;
  calls = [];
}

store_rounds-Endless_example : Endless (store_rounds (pos 1024) 5 (3 * 2 ^ 30) child)
store_rounds-Endless_example = store_rounds-Endless (pos 1024) 5 (3 * 2 ^ 30) child (omega arith)

retr_rounds_stuck_example : Waiting (retr_rounds false (pos 1024) (given 9 ∷ given 9 ∷ []) 7 child)
retr_rounds_stuck_example =
    retr_rounds_stuck (pos 1024) (given 9 ∷ given 9 ∷ []) 6 child refl (tt, (tt, tt))
