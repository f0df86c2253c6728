-- ===== src/Client/Frames/Speech.antt =====
-- The bytes that the client writes and reads (writemessage.c and readmessage.c of bbftp-client/bbftpc).
use bbftp.Base.{
  ℕ, ◌≡◌, ◌⊎◌, arith, Bool, true, false, List, [], ◌∷◌, ◌++◌, Option, none, some, pos, take, drop,
}
use mathlib.Core.List.{append_assoc, append-nil}
use bbftp.Channel.Read.{readmessage_run}
use bbftp.Channel.Write.{writemessage_run}
use bbftp.Client.{Client, Text, returns}
use bbftp.Client.Io.{send, send_all, receive, retried, readmessage, writemessage}
use bbftp.Client.Frames.{Ends, Ends-bind, Ends-mono, Ends-if}

abbrev pub concat : List Text → Text
concat [] = []
concat (part ∷ parts) = part ++ concat parts

-- Where the write succeeds, the bytes have gone out.
abbrev pub Sends : Text → Client → Bool → Client → Type 0
Sends bytes s sent t =
    (t ≡ record s { outsock = t.outsock })
    × (sent ≡ true → t.outsock.sent ≡ s.outsock.sent ++ bytes)

pub send-Sends : (bytes : Text) (s : Client) → Ends (send bytes s) (Sends bytes s)
unfolding send writemessage
send-Sends bytes s = ground (arith, writemessage_run retried s.outsock bytes)

pub send_all-Sends :
    (parts : List Text) (s : Client) → Ends (send_all parts s) (Sends (concat parts) s)
unfolding send_all
send_all-Sends [] s = ground (arith, append-nil s.outsock.sent)
send_all-Sends (part ∷ parts) s = Ends-bind (send part s) _ _ _ (send-Sends part s) λ sent t p.
    Ends-if sent (send_all parts) (λ u. returns false u) t _
      (λ e. Ends-mono (send_all parts t) _ _ (send_all-Sends parts t) λ b u q.
        ground (arith, p.0, p.1, q.0, q.1, append_assoc s.outsock.sent part (concat parts)))
      (λ e. ground (arith, p.0))

-- Where the read succeeds, the bytes are the next ones of the stream.
abbrev pub Receives : ℕ → Client → Option (List ℕ) → Client → Type 0
Receives n s r t =
    (t ≡ record s { insock = t.insock })
    × ((r ≡ none)
        ⊎ ((r ≡ some (take n s.insock.stream)) × (t.insock.stream ≡ drop n s.insock.stream)))

pub receive-Receives : (n : ℕ) (s : Client) → Ends (receive (pos n) s) (Receives n s)
unfolding receive readmessage
receive-Receives n s = ground (arith, readmessage_run retried s.insock n)
