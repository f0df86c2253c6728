-- ===== src/Client/Frames/Control.antt =====
-- Who closes the control connection: the requests of bbftp-client/bbftpc by their result.
use bbftp.Base.{
  ℕ, suc, ◌+◌, ◌-◌, ◌^◌, ◌<◌, ◌≡◌, refl, ◌⊎◌, arith, Bool, true, false, ◌||◌, not, List, [], ◌∷◌, ℤ,
  pos, negsuc, eqb_ℤ, if◌then◌else◌, ◌==◌,
}
use bbftp.Wire.Codes.{msg_bad, msg_bad_no_retry}
use bbftp.Wire.{Message}
use bbftp.Client.{
  Client, Text, Call, malloc_call, close_call, kill_call, sleep_call, chdir_call, umask_call,
  stdout_call, result_call, waitpid_call, unlink_call, chmod_call, rename_call, M, Outcome,
  continue, pure, set_errcode, ◌>>◌,
}
use bbftp.Client.Io.{
  send, send_all, receive, waitcontrol, malloc, abandon, read_text, close_control, bb_ret_ok,
  bb_ret_conn_broken, bb_ret_ft_nr_conn_broken,
}
use bbftp.Client.Requests.{request, await_answer, answered, refused}
use bbftp.Client.Frames.{Ends, Ends-bind, Ends-mono, Ends-if, Ends-option}

abbrev pub count_closes : List Call → ℕ
count_closes [] = 0
count_closes (close_call d ∷ calls) = suc (count_closes calls)
count_closes (malloc_call n ∷ calls) = count_closes calls
count_closes (kill_call p n ∷ calls) = count_closes calls
count_closes (sleep_call n ∷ calls) = count_closes calls
count_closes (chdir_call t ∷ calls) = count_closes calls
count_closes (umask_call n ∷ calls) = count_closes calls
count_closes (stdout_call t ∷ calls) = count_closes calls
count_closes (result_call t ∷ calls) = count_closes calls
count_closes (waitpid_call p ∷ calls) = count_closes calls
count_closes (unlink_call t ∷ calls) = count_closes calls
count_closes (chmod_call t n ∷ calls) = count_closes calls
count_closes (rename_call t u ∷ calls) = count_closes calls

-- How many descriptors the control connection has.
abbrev pub descriptors : Client → ℕ
descriptors s = if eqb_ℤ s.incontrolsock s.outcontrolsock then 1 else 2

-- The results that say that the connection is broken.
abbrev pub broken : ℤ → Bool
broken r = eqb_ℤ r bb_ret_conn_broken || eqb_ℤ r bb_ret_ft_nr_conn_broken

-- The connection is as it was, with `n` descriptors closed.
pub record Closed (n : ℕ) (s t : Client) : Type 0 where
  pub count : count_closes t.calls ≡ count_closes s.calls + n
  pub incoming : t.incontrolsock ≡ s.incontrolsock
  pub outgoing : t.outcontrolsock ≡ s.outcontrolsock

-- What every request keeps: the connection is closed, once, exactly where the result says that it is
-- broken, the result is one of the five codes, and a failure comes with an errcode.
pub record Settles (s : Client) (r : ℤ) (t : Client) : Type 0 where
  pub closed : Closed (if broken r then descriptors s else 0) s t
  pub reported : (r ≡ bb_ret_ok) ⊎ (0 < t.errcode)

pub send-Closed : (part : Text) (s : Client) → Ends (send part s) (λ _ t. Closed 0 s t)
unfolding send
send-Closed part s = ground arith

pub receive-Closed : (n : ℤ) (s : Client) → Ends (receive n s) (λ _ t. Closed 0 s t)
unfolding receive
receive-Closed n s = ground arith

pub Closed-refl : (s : Client) → Closed 0 s s
Closed-refl s = record { count = omega arith; incoming = refl; outgoing = refl }

pub Closed-trans : (s t u : Client) → Closed 0 s t → Closed 0 t u → Closed 0 s u
Closed-trans s t u p q =
    ground (arith, p.count, p.incoming, p.outgoing, q.count, q.incoming, q.outgoing)

pub Settles-after : (s t u : Client) (r : ℤ) → Closed 0 s t → Settles t r u → Settles s r u
Settles-after s t u r p q = ground (arith, p.count, p.incoming, p.outgoing, q.closed, q.reported)

-- A piece that closes nothing, and a rest that settles.
pub Settles-bind {ℓ} :
    {A : Type ℓ} (s : Client) (o : Outcome A) (f : A → M ℤ)
    → Ends o (λ _ t. Closed 0 s t)
    → ((a : A) (t : Client) → Ends (f a t) (Settles t))
    → Ends (continue o f) (Settles s)
Settles-bind s o f p k =
    Ends-bind o f _ _ p λ a t q. Ends-mono (f a t) _ _ (k a t) (λ r u. Settles-after s t u r q)

pub send_all-Closed :
    (parts : List Text) (s : Client) → Ends (send_all parts s) (λ _ t. Closed 0 s t)
unfolding send_all
send_all-Closed [] s = Closed-refl s
send_all-Closed (part ∷ parts) s = Ends-bind (send part s) _ _ _ (send-Closed part s) λ sent t p.
    Ends-if sent (send_all parts) (λ u. pure false u) t _
      (λ _.
        Ends-mono (send_all parts t) _ _ (send_all-Closed parts t)
          (λ b u q. Closed-trans s t u p q))
      (λ _. p)

pub waitcontrol-Closed : (s : Client) → Ends (waitcontrol s) (λ _ t. Closed 0 s t)
unfolding waitcontrol
waitcontrol-Closed s = ground arith

pub malloc-Closed : (n : ℕ) (s : Client) → Ends (malloc n s) (λ _ t. Closed 0 s t)
unfolding malloc
malloc-Closed n s = ground arith

pub abandon-Settles :
    (err : ℕ) (r : ℤ) (s : Client) → 0 < err → broken r ≡ true → Ends (abandon err r s) (Settles s)
unfolding abandon close_control
abandon-Settles err r s h b = ground arith

-- The end of a failed read: the result says that the connection is broken, and nothing is closed
-- again.
abbrev pub Loses : M ℤ → Type 0
Loses lost =
    (s : Client) → Ends (lost s) (λ r t. (broken r ≡ true) × Closed 0 s t × (t.errcode ≡ s.errcode))

read_failed-Settles :
    (lost : M ℤ) (s : Client)
    → Loses lost
    → Ends ((set_errcode 67 >> (close_control >> lost)) s) (Settles s)
unfolding close_control
read_failed-Settles lost s l =
    Ends-bind ((set_errcode 67 >> close_control) s) (λ _. lost)
      (λ _ t. Closed (descriptors s) s t × (t.errcode ≡ 67)) _ (ground arith)
      λ _ t p. Ends-mono (lost t) _ _ (l t) λ r u q. ground (
        arith, p.0.count, p.0.incoming, p.0.outgoing, p.1, q.0, q.1.count, q.1.incoming,
        q.1.outgoing, q.2,
      )

pub read_text-Settles :
    (n : ℤ) (lost : M ℤ) (k : Text → M ℤ) (s : Client)
    → Loses lost
    → ((bytes : Text) (t : Client) → Ends (k bytes t) (Settles t))
    → Ends (read_text n lost k s) (Settles s)
unfolding read_text
read_text-Settles (negsuc n) lost k s l h =
    Settles-bind s (malloc _ s) _ (malloc-Closed _ s) λ fits t.
      Ends-if fits _ _ t _ (λ _. tt)
        (λ _. abandon-Settles 35 bb_ret_conn_broken t (omega arith) refl)
read_text-Settles (pos n) lost k s l h =
    Ends-if (n == 2 ^ 31 - 1) _ _ s _ (λ _. tt)
      λ _. Settles-bind s (malloc (n + 1) s) _ (malloc-Closed (n + 1) s) λ fits t.
        Ends-if (not fits) _ _ t _ (λ _. abandon-Settles 35 bb_ret_conn_broken t (omega arith) refl)
          (λ _.
            Settles-bind t (receive (pos n) t) _ (receive-Closed (pos n) t) λ r u.
              Ends-option r _ _ u _ (λ _. read_failed-Settles lost u l) (λ bytes _. h bytes u))

pub lost-Loses : (r : ℤ) → broken r ≡ true → Loses (λ s. pure r s)
lost-Loses r b s = (b, Closed-refl s, refl)

refused-Settles : (code : ℕ) (n : ℤ) (s : Client) → Ends (refused code n s) (Settles s)
unfolding refused
refused-Settles code n s =
    read_text-Settles n _ _ s
      (lost-Loses (if code == msg_bad then bb_ret_conn_broken else bb_ret_ft_nr_conn_broken)
        (ground arith))
      (λ bytes t. ground arith)

answered-Settles :
    (success : ℕ) (accepted : ℤ → M ℤ) (msg : Message) (s : Client)
    → ((n : ℤ) (t : Client) → Ends (accepted n t) (Settles t))
    → Ends (answered success accepted msg s) (Settles s)
unfolding answered
answered-Settles success accepted msg s h =
    Ends-if ((msg.code == msg_bad) || (msg.code == msg_bad_no_retry)) _ _ s _
      (λ _. refused-Settles msg.code msg.msglen s)
      (λ _.
        Ends-if (msg.code == success) _ _ s _ (λ _. h msg.msglen s)
          (λ _. abandon-Settles 62 bb_ret_conn_broken s (omega arith) refl))

pub await_answer-Settles :
    (success : ℕ) (accepted : ℤ → M ℤ) (s : Client)
    → ((n : ℤ) (t : Client) → Ends (accepted n t) (Settles t))
    → Ends (await_answer success accepted s) (Settles s)
unfolding await_answer
await_answer-Settles success accepted s h =
    Settles-bind s (waitcontrol s) _ (waitcontrol-Closed s) λ input t.
      Ends-if (not input) _ _ t _ (λ _. abandon-Settles 66 bb_ret_conn_broken t (omega arith) refl)
        (λ _. Settles-bind t (receive (pos 8) t) _ (receive-Closed (pos 8) t) λ head u.
          Ends-option head _ _ u _ (λ _. abandon-Settles 61 bb_ret_conn_broken u (omega arith) refl)
            (λ bytes _. answered-Settles success accepted _ u h))

pub request-Settles :
    (parts : List Text) (success : ℕ) (accepted : ℤ → M ℤ) (s : Client)
    → ((n : ℤ) (t : Client) → Ends (accepted n t) (Settles t))
    → Ends (request parts success accepted s) (Settles s)
unfolding request
request-Settles parts success accepted s h =
    Settles-bind s (send_all parts s) _ (send_all-Closed parts s) λ sent t.
      Ends-if sent _ _ t _ (λ _. await_answer-Settles success accepted t h)
        (λ _. abandon-Settles 64 bb_ret_conn_broken t (omega arith) refl)
