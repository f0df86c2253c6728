-- ===== src/Client/Tests/Commands.antt =====
-- The commands of the client at concrete runs.
use bbftp.Base.{ℕ, ◌≡◌, refl, Bool, true, false, [], ◌∷◌, none, pos, minus_one, text}
use bbftp.Channel.{ready, write_failed}
use bbftp.Wire.{encode_len}
use bbftp.Client.{Client, Text, M, Call, returns, waits, pure, record_call, sleep_call, ◌>>◌}
use bbftp.Client.Io.{close_control}
use bbftp.Client.Reconnect.{connect_loop, settle}
use bbftp.Client.Reconnect.Ends.{connect_loop_stays, TurnsAway}
use bbftp.Client.Commands.{try_command, run_command, command}
use bbftp.Client.Transfers.{Transfers}
use bbftp.Client.Commands.Names.{do_get, get_basename}
use bbftp.Client.Commands.Settings.{option_flag, split_no}
use bbftp.Client.Commands.Tokens.{words}
use bbftp.Client.Commands.Words.{words-line}
use bbftp.Client.Commands.Basename.{get_basename-IsLast, IsLast}
use bbftp.Client.Commands.Tries.{try_command_unbroken, guarded}
use bbftp.Client.Tests.{client, os}

-- No network, and transfers that do nothing.
abbrev world : Transfers
world = record {
  do_connect = pure minus_one;
  bbftp_get = λ name. pure (pos 0);
  bbftp_put = λ name. pure (pos 0);
  bbftp_retrcheckdir = λ dir. pure (pos 0);
  bbftp_retrlistdir = λ name. pure (pos 0, []);
}

abbrev here : Client
here = client []

words-line_example : words (text "rm x ") ≡ text "rm" ∷ text "x" ∷ []
unfolding text
words-line_example =
    words-line (text "rm" ∷ text "x" ∷ [])
      (((λ e. cc), (refl, (refl, tt))), (((λ e. cc), (refl, tt)), tt))

get_basename-IsLast_example : (at : ℕ) × IsLast (text "/tmp/x") (text "x") at
unfolding text get_basename bbftp.Client.Commands.Names.basename_at
    bbftp.Client.Transfers.Many.char_at
get_basename-IsLast_example = get_basename-IsLast (text "/tmp/x")

-- A command that fails, on a connection that is broken.
abbrev fails : M Bool
fails s = returns true (record s { retcode = minus_one; errcode = 64 })

try_command_unbroken_example :
    try_command world 3 5 (guarded fails) here ≡ try_command world 3 5 fails here
try_command_unbroken_example = try_command_unbroken world 3 5 fails here

no_option : option_flag (split_no (text "nothing")).1 ≡ 0
unfolding option_flag split_no text bbftp.Client.Commands.Tokens.eq_text
no_option = refl

-- A client without memory.
abbrev poor : Client
poor = record here { os = record os { malloc = λ calls size. false } }

-- A connection on which every write fails.
abbrev deaf : Client → Client
deaf s = record s {
  outsock = record { sent = []; selects = ready ∷ []; writes = write_failed 32 ∷ [] };
}

abbrev left_deaf : Client → Client
left_deaf s = record s { outsock = record { sent = []; selects = []; writes = [] } }

deaf_settles : (s : Client) → settle (deaf s) ≡ returns false (left_deaf s)
unfolding settle bbftp.Client.Sendproto.sendproto bbftp.Client.Io.send bbftp.Client.Io.writemessage
    encode_len bbftp.Wire.le32
deaf_settles s = refl

turned_away : TurnsAway (λ s. returns (pos 0) (deaf s)) (λ s. Unit {0})
unfolding close_control
turned_away s p = (deaf s, left_deaf s, _, refl, deaf_settles s, refl, tt)

connect_loop_stays_example :
    (t : Client) × (connect_loop (λ s. returns (pos 0) (deaf s)) 1000 none here ≡ waits t)
    × Unit {0}
connect_loop_stays_example =
    connect_loop_stays (λ s. returns (pos 0) (deaf s)) (λ s. Unit {0}) 1000 none here turned_away tt
