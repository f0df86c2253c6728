-- ===== src/Client/Ending/Silence.antt =====
-- The wait for the end of a transfer once the children are dead and the server is silent.
use bbftp.Base.{ℕ, ◌≡◌, ◌++◌, List, some, ℤ, replicate}
use bbftp.Channel.{SelectAnswer, select_failed, eintr}
use bbftp.Client.{Client, Os, Call}
use bbftp.Client.Ending.{echild}

-- Every waitpid says that there is no such child.
abbrev pub NoChildren : Os → Type 0
NoChildren os = (calls : List Call) (p : ℤ) → os.waitpid calls p ≡ some echild

-- Signals that interrupt select, any number of them.
abbrev pub interrupted_by : ℕ → List SelectAnswer → List SelectAnswer
interrupted_by n ticks = replicate n (select_failed eintr) ++ ticks
