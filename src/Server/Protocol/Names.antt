-- ===== src/Server/Protocol/Names.antt =====
-- The answers to MSG_FILENAME leave the variables of a transfer complete, or none of them.
use bbftp.Base.{
  ◌||◌, subst, sym, ◌∷◌, ◌∙◌, to_size, has, eqb_ℤ, ◌&&◌, not, if◌then◌else◌, List, ℕ, ◌≡◌, refl, ap,
  arith, ℤ, pos, Bool, true, false, Option, none, some, ◌⊎◌, inl,
}
use bbftp.Server.{Server, Outcome, listen_call, M, modify, pure, ◌>>◌, Text, Block}
use bbftp.Server.Io.{send, malloc}
use bbftp.Wire.Codes.{tropt_gzip}
use bbftp.Server.Files.Retr.{kilobytes}
use bbftp.Server.Frames.{Ends-mono, Ends, Ends-bind, Same, malloc-Same}
use bbftp.Server.Transfer.{
  allocate_memory_for_transfer, init_and_send_msg_store_v2, getdatasock, write_ports, write_array,
  msgwrite_msg_bytes, allocate_buffers, allocate, block, stream_bytes, answer_ports, allocate_rest,
  allocate_packed, allocate_sockets, keep_sockets,
}
use bbftp.Server.Protocol.Ready.{is_some, allocated}

-- The names, the options and the state are as they were.
abbrev pub NamesHold : Server → Server → Type 0
NamesHold s t =
    (t.state ≡ s.state)
    × ((t.curfilename ≡ s.curfilename)
        × ((t.realfilename ≡ s.realfilename)
            × ((t.transferoption ≡ s.transferoption) × (t.protocolversion ≡ s.protocolversion))))

-- The buffers, or a failure.
abbrev pub HasBuffers : Server → Bool → Server → Type 0
HasBuffers s ok t = NamesHold s t × ((ok ≡ false) ⊎ (allocated t ≡ true))

allocate_lem {ℓ} :
    (size : ℕ) (assign : Server → Server) (next : M Bool) (s : Server) (Q : Bool → Server → Type ℓ)
    → ((t : Server) → Same s t → Q false t)
    → ((t : Server) → Same s t → Ends (next (assign t)) Q)
    → Ends (allocate size assign next s) Q
allocate_lem size assign next s Q fails fits =
    Ends-bind (malloc size s) _ (λ _ t. Same s t) Q (malloc-Same size s)
      (λ b t p. (elim b as (λ b. Ends ((if b then modify assign >> next else pure false) t) Q) [
        | true ↦ fits t p
        | false ↦ fails t p
      ]))

-- A call on record changes no name.
pub Same-NamesHold : (s t : Server) → Same s t → NamesHold s t
Same-NamesHold s t p = (
  ap (λ (u : Server). u.state) p,
  (
    ap (λ (u : Server). u.curfilename) p,
    (
      ap (λ (u : Server). u.realfilename) p,
      (ap (λ (u : Server). u.transferoption) p, ap (λ (u : Server). u.protocolversion) p),
    ),
  ),
)

pub NamesHold-trans : (s t u : Server) → NamesHold s t → NamesHold t u → NamesHold s u
NamesHold-trans s t u (a, (b, (c, (d, o)))) (e, (f, (g, (h, k)))) =
    (e ∙ a, (f ∙ b, (g ∙ c, (h ∙ d, k ∙ o))))

HasBuffers-from :
    (s t : Server) (o : Outcome Bool)
    → NamesHold s t
    → Ends o (HasBuffers t)
    → Ends o (HasBuffers s)
HasBuffers-from s t o n p =
    Ends-mono o (HasBuffers t) (HasBuffers s) p (λ ok u q. (NamesHold-trans s t u n (q.0), q.1))

allocate_packed-holds :
    (b : Bool) (kb : ℕ) (s : Server)
    → Ends
        (allocate_packed b kb s)
        (λ _ t. t ≡ record s { compbuffer = t.compbuffer; calls = t.calls })
unfolding allocate_packed malloc
allocate_packed-holds b kb s = ground arith

allocate_sockets-Ready :
    (v3 : Bool) (size : ℕ) (s : Server)
    → v3 ≡ eqb_ℤ s.protocolversion (pos 3)
    → (is_some s.myports && (is_some s.mychildren && is_some s.readbuffer)) ≡ true
    → Ends (allocate_sockets v3 size s) (HasBuffers s)
unfolding allocate_sockets malloc allocated is_some
allocate_sockets-Ready v3 size s p q = ground arith

packed_names :
    (s t v : Server) (kb : ℕ)
    → Same s t
    → v ≡ record t { readbuffer = some kb; compbuffer = v.compbuffer; calls = v.calls }
    → NamesHold s v
packed_names s t v kb q r = NamesHold-trans s t v (Same-NamesHold s t q) (
  ap (λ (u : Server). u.state) r,
  (
    ap (λ (u : Server). u.curfilename) r,
    (
      ap (λ (u : Server). u.realfilename) r,
      (ap (λ (u : Server). u.transferoption) r, ap (λ (u : Server). u.protocolversion) r),
    ),
  ),
)

packed_arrays :
    (s t v : Server) (kb : ℕ)
    → (is_some s.myports && is_some s.mychildren) ≡ true
    → Same s t
    → v ≡ record t { readbuffer = some kb; compbuffer = v.compbuffer; calls = v.calls }
    → (is_some v.myports && (is_some v.mychildren && is_some v.readbuffer)) ≡ true
unfolding is_some
packed_arrays s t v kb p q r = ground (
  arith,
  ap (λ (u : Server). u.myports) r,
  ap (λ (u : Server). u.mychildren) r,
  ap (λ (u : Server). u.readbuffer) r,
  ap (λ (u : Server). u.myports) q,
  ap (λ (u : Server). u.mychildren) q,
)

allocate_buffers-Ready :
    (size : ℕ) (kb : Option ℤ) (s : Server)
    → (is_some s.myports && is_some s.mychildren) ≡ true
    → Ends (allocate_buffers size kb s) (HasBuffers s)
unfolding allocate_buffers allocate_rest
allocate_buffers-Ready size none s p = tt
allocate_buffers-Ready size (some kb) s p =
    allocate_lem (to_size kb) (λ s. record s { readbuffer = some (to_size kb) })
      (allocate_rest size (to_size kb)) s (HasBuffers s) (λ t q. (Same-NamesHold s t q, inl refl))
      (λ t q.
        let u = record t { readbuffer = some (to_size kb) } in
        Ends-bind (allocate_packed (has u.transferoption tropt_gzip) (to_size kb) u) _
          (λ _ v. v ≡ record u { compbuffer = v.compbuffer; calls = v.calls }) (HasBuffers s)
          (allocate_packed-holds _ _ u)
          (λ packed v r.
            HasBuffers-from s v _ (packed_names s t v (to_size kb) q r)
              (elim packed
                as (λ b.
                  Ends
                    ((if b
                        then allocate_sockets (eqb_ℤ v.protocolversion (pos 3)) size
                        else pure false)
                      v)
                    (HasBuffers v)) [
                      | true ↦
                          allocate_sockets-Ready _ size v refl
                            (packed_arrays s t v (to_size kb) p q r)
                      | false ↦ ((refl, (refl, (refl, (refl, refl)))), inl refl)
                    ])))

pub allocate_memory-Ready : (s : Server) → Ends (allocate_memory_for_transfer s) (HasBuffers s)
unfolding allocate_memory_for_transfer is_some
allocate_memory-Ready s =
    let size = stream_bytes s in
    allocate_lem size (λ s. record s { myports = block size })
      (allocate size (λ s. record s { mychildren = block size })
        (allocate_buffers size (kilobytes s.buffersizeperstream)))
      s (HasBuffers s) (λ t p. (Same-NamesHold s t p, inl refl))
      (λ t p.
        let u = record t { myports = block size } in
        allocate_lem size (λ s. record s { mychildren = block size })
          (allocate_buffers size (kilobytes s.buffersizeperstream)) u (HasBuffers s)
          (λ v q. (NamesHold-trans s u v (Same-NamesHold s t p) (Same-NamesHold u v q), inl refl))
          (λ v q.
            let w = record v { mychildren = block size } in
            HasBuffers-from s w _
              (NamesHold-trans s u w (Same-NamesHold s t p) (Same-NamesHold u v q))
              (allocate_buffers-Ready size (kilobytes s.buffersizeperstream) w
                (ground (arith, ap (λ (x : Server). x.myports) q)))))

-- The frame of the answer to the client.
abbrev pub Answers : Server → Bool → Server → Type 0
Answers s ok t = NamesHold s t × (allocated t ≡ true)

Answers-from :
    (s t : Server) (o : Outcome Bool) → NamesHold s t → Ends o (Answers t) → Ends o (Answers s)
Answers-from s t o n p =
    Ends-mono o (Answers t) (Answers s) p (λ ok u q. (NamesHold-trans s t u n (q.0), q.1))

pub Same-allocated : (s t : Server) → Same s t → allocated s ≡ true → allocated t ≡ true
unfolding allocated
Same-allocated s t p a =
    subst
      (λ (u : Server).
        (is_some u.myports
          && (is_some u.mychildren
              && (is_some u.readbuffer
                  && (is_some u.mysockets || not (eqb_ℤ u.protocolversion (pos 3))))))
        ≡ true)
      (sym p) a

keep_sockets-Ready :
    (pairs : Option (List (ℤ × ℤ))) (p q : Option Block) (s : Server)
    → allocated s ≡ true
    → Ends (keep_sockets pairs p q s) (Answers s)
unfolding keep_sockets allocated is_some
keep_sockets-Ready none p q s a = ((refl, (refl, (refl, (refl, refl)))), a)
keep_sockets-Ready (some pairs) none q s a = tt
keep_sockets-Ready (some pairs) (some p) none s a = tt
keep_sockets-Ready (some pairs) (some p) (some q) s a = ground arith

getdatasock-Ready : (s : Server) → allocated s ≡ true → Ends (getdatasock s) (Answers s)
unfolding getdatasock
getdatasock-Ready s a =
    let t = record s { calls = listen_call s.requestedstreamnumber ∷ s.calls } in
    Answers-from s t _ (refl, (refl, (refl, (refl, refl))))
      (keep_sockets-Ready _ s.myports s.mysockets t (Same-allocated s t refl a))

write_array-Ready :
    (p : Option Block) (s : Server) → allocated s ≡ true → Ends (write_array p s) (Answers s)
unfolding write_array send allocated is_some
write_array-Ready none s a = tt
write_array-Ready (some p) s a = ground arith

answer_ports-Ready :
    (told b : Bool) (s : Server) → allocated s ≡ true → Ends (answer_ports told b s) (Answers s)
unfolding answer_ports write_ports
answer_ports-Ready false b s a = ((refl, (refl, (refl, (refl, refl)))), a)
answer_ports-Ready true false s a = ((refl, (refl, (refl, (refl, refl)))), a)
answer_ports-Ready true true s a =
    Ends-bind (getdatasock s) _ (Answers s) (Answers s) (getdatasock-Ready s a) (λ ready t (n, b).
      Answers-from s t _ n
        (elim ready as (λ r. Ends ((if r then write_ports else pure false) t) (Answers t)) [
          | true ↦ write_array-Ready t.myports t b
          | false ↦ ((refl, (refl, (refl, (refl, refl)))), b)
        ]))

msgwrite_msg_bytes-Same :
    (code : ℕ) (bytes : Text) (s : Server)
    → Ends (msgwrite_msg_bytes code bytes s) (λ _ t. Same s t)
unfolding msgwrite_msg_bytes send
msgwrite_msg_bytes-Same code bytes s = ground arith

pub init_and_send-Ready :
    (b : Bool) (s : Server) → allocated s ≡ true → Ends (init_and_send_msg_store_v2 b s) (Answers s)
unfolding init_and_send_msg_store_v2
init_and_send-Ready b s a =
    Ends-bind (msgwrite_msg_bytes _ _ s) _ (λ _ t. Same s t) (Answers s)
      (msgwrite_msg_bytes-Same _ _ s)
      (λ told t p.
        Answers-from s t _ (Same-NamesHold s t p)
          (answer_ports-Ready told b t (Same-allocated s t p a)))
