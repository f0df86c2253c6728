-- ===== src/Server/Frames/Stream.antt =====
-- The bytes that the server reads (bbftp-server/bbftpd/bbftpd_message.c, and read_string of
-- bbftpd_readcontrol.c).
use bbftp.Base.{
  ℕ, ◌+◌, ◌-◌, ◌^◌, ◌≡◌, ◌⊎◌, arith, Bool, true, List, ◌∷◌, ◌++◌, Option, none, some, pos, take,
  drop, ltb_ℤ, eqb_ℤ, text,
}
use bbftp.Wire.{Message, decode_message}
use bbftp.Wire.Codes.{msg_bad}
use bbftp.Channel.{interrupted}
use bbftp.Channel.Read.{readmessage_run}
use bbftp.Channel.Write.{writemessage_run}
use bbftp.Server.{
  Server, M, Outcome, Fault, returns, exits, waits, faults, continue, ◌>>◌, pure, fault,
  use_after_free, malloc_call,
}
use bbftp.Server.Io.{
  send, receive, msgread_msg, read_string, StringRead, no_memory, string, malloc, reply,
}
use bbftp.Server.Frames.{Ends, Ends-bind, Ends-if, reply-Same}

-- Where the read succeeds, the bytes are the next ones of the stream.
abbrev pub Receives : ℕ → Server → Option (List ℕ) → Server → Type 0
Receives n s r t =
    (t ≡ record s { insock = t.insock })
    × ((r ≡ none)
        ⊎ ((r ≡ some (take n s.insock.stream)) × (t.insock.stream ≡ drop n s.insock.stream)))

pub receive-Receives : (n : ℕ) (s : Server) → Ends (receive (pos n) s) (Receives n s)
unfolding receive bbftp.Channel.readmessage
receive-Receives n s = ground (arith, readmessage_run interrupted s.insock n)

-- The header that msgread_msg finds.
abbrev pub FindsHeader : Server → Option Message → Server → Type 0
FindsHeader s r t =
    (r ≡ none)
    ⊎ ((r ≡ some (decode_message (take 8 s.insock.stream)))
        × (t.insock.stream ≡ drop 8 s.insock.stream))

pub msgread_msg-FindsHeader : (s : Server) → Ends (msgread_msg s) (FindsHeader s)
unfolding msgread_msg
msgread_msg-FindsHeader s =
    Ends-bind (receive (pos 8) s) _ _ _ (receive-Receives 8 s) λ r t p. ground (arith, p.0, p.1)

-- The text that read_string finds.
abbrev pub FindsString : ℕ → Server → StringRead → Server → Type 0
FindsString n s r t =
    (r ≡ no_memory)
    ⊎ ((r ≡ string (take n s.insock.stream)) × (t.insock.stream ≡ drop n s.insock.stream))

Ends-fault :
    {A B : Type 0} (o : Outcome A) (e : Fault) (Q : B → Server → Type 0)
    → Ends (continue o (λ _ t. faults e t)) Q
Ends-fault (returns a t) e Q = tt
Ends-fault (exits n t) e Q = tt
Ends-fault (waits t) e Q = tt
Ends-fault (faults x t) e Q = tt

receive_string :
    (n : ℕ) (r : Option (List ℕ)) (s t : Server)
    → Receives n s r t
    → Ends
        ((elim r as (λ _. M StringRead) [
          | none ↦ reply msg_bad (text "read error") >> fault use_after_free
          | some bytes ↦ pure (string bytes)
        ])
          t)
        (FindsString n s)
receive_string n none s t p = Ends-fault (reply msg_bad (text "read error") t) use_after_free _
receive_string n (some bytes) s t p = ground (arith, p.1)

pub read_string-FindsString : (n : ℕ) (s : Server) → Ends (read_string (pos n) s) (FindsString n s)
unfolding read_string malloc
read_string-FindsString n s =
    Ends-if (ltb_ℤ (pos n) (pos 0)) _ _ s _ (λ e. absurd (ground (arith, e)))
      λ _.
        Ends-if (eqb_ℤ (pos n) (pos (2 ^ 31 - 1))) _ _ s _ (λ _. tt)
          λ _.
            let t = record s { calls = malloc_call (n + 1) ∷ s.calls } in
            Ends-if (s.os.malloc s.calls (n + 1)) _ _ t _
              (λ _.
                Ends-bind (receive (pos n) t) _ _ _ (receive-Receives n t)
                  (λ r u p. receive_string n r t u p))
              (λ _. ground (arith, reply-Same msg_bad (text "malloc failed") t))

-- Where the write succeeds, the bytes have gone out.
abbrev pub Sends : List ℕ → Server → Bool → Server → Type 0
Sends bytes s sent t =
    (t ≡ record s { outsock = t.outsock })
    × (sent ≡ true → t.outsock.sent ≡ s.outsock.sent ++ bytes)

pub send-Sends : (bytes : List ℕ) (s : Server) → Ends (send bytes s) (Sends bytes s)
unfolding send bbftp.Channel.writemessage
send-Sends bytes s = ground (arith, writemessage_run interrupted s.outsock bytes)
