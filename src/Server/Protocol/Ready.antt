-- ===== src/Server/Protocol/Ready.antt =====
-- The variables of a transfer in each state: none outside of a transfer, and all of them where the
-- client may start one (bbftp-server/bbftpd/bbftpd_readcontrol.c).
use bbftp.Base.{
  subst, has, sym, ap, ◌∙◌, ◌≡◌, ℤ, pos, minus_one, ◌⊎◌, Bool, true, false, Option, none, some,
  ◌&&◌, ◌||◌, not, eqb_ℤ,
}
use bbftp.Wire.Codes.{tropt_rfio}
use bbftp.Server.{
  Server, State, conn, logged, receiving, sending, waiting_filename_store, waiting_filename_retr,
  waiting_store_start, waiting_retr_start, waiting_create_zero, protwait,
}
use bbftp.Server.Frames.{Same}
use bbftp.Server.Protocol.{Step}

unfoldable pub is_some {ℓ} : {A : Type ℓ} → Option A → Bool
is_some none = false
is_some (some _) = true

-- No variable of a transfer holds memory.
abbrev pub Clean : Server → Type 0
Clean s = s ≡ record s {
  curfilename = none;
  realfilename = none;
  myports = none;
  mysockets = none;
  mychildren = none;
  readbuffer = none;
  compbuffer = none;
  nbpidchild = 0;
}

-- The arrays for the ports, the children and the sockets are there, and the buffer.
unfoldable pub allocated : Server → Bool
unfolding is_some
allocated s =
    is_some s.myports
    && (is_some s.mychildren
        && (is_some s.readbuffer && (is_some s.mysockets || not (eqb_ℤ s.protocolversion (pos 3)))))

-- A store is ready with its buffers, both names and no option of RFIO; a retrieval has one name.
abbrev pub StoreReady : Server → Type 0
StoreReady s =
    (allocated s ≡ true)
    × ((is_some s.curfilename ≡ true)
        × ((is_some s.realfilename ≡ true) × (has s.transferoption tropt_rfio ≡ false)))

abbrev pub RetrReady : Server → Type 0
RetrReady s =
    (allocated s ≡ true)
    × ((is_some s.curfilename ≡ true) × (has s.transferoption tropt_rfio ≡ false))

-- What a state needs.
abbrev pub Ready : State → Server → Type 0
Ready logged s = Clean s
Ready waiting_filename_store s = Clean s
Ready waiting_filename_retr s = Clean s
Ready waiting_create_zero s = Clean s
Ready waiting_store_start s = StoreReady s
Ready receiving s = StoreReady s
Ready waiting_retr_start s = RetrReady s
Ready sending s = RetrReady s
Ready conn s = Unit
Ready protwait s = Unit

-- The connection ends, or the state has made a step and the variables are those of its new state.
abbrev pub Advances : State → ℤ → Server → Type 0
Advances x status t = (status ≡ minus_one) ⊎ (Step x t.state × Ready t.state t)

pub Same-Clean : (s t : Server) → Clean s → Same s t → Clean t
Same-Clean s t c p =
    p
    ∙ ap (λ (u : Server). record u { insock = t.insock; outsock = t.outsock; calls = t.calls }) c
    ∙ sym (
        ap
          (λ (u : Server). record u {
            curfilename = none;
            realfilename = none;
            myports = none;
            mysockets = none;
            mychildren = none;
            readbuffer = none;
            compbuffer = none;
            nbpidchild = 0;
          })
          p)

pub logged-Clean : (s : Server) (x : State) → Clean s → Clean (record s { state = x })
logged-Clean s x c = ap (λ (u : Server). record u { state = x }) c

-- Neither the connection nor the record of calls is part of what a state needs.
pub Same-Ready : (x : State) (s t : Server) → Ready x s → Same s t → Ready x t
unfolding allocated
Same-Ready logged s t c p = Same-Clean s t c p
Same-Ready waiting_filename_store s t c p = Same-Clean s t c p
Same-Ready waiting_filename_retr s t c p = Same-Clean s t c p
Same-Ready waiting_create_zero s t c p = Same-Clean s t c p
Same-Ready waiting_store_start s t c p = subst StoreReady (sym p) c
Same-Ready receiving s t c p = subst StoreReady (sym p) c
Same-Ready waiting_retr_start s t c p = subst RetrReady (sym p) c
Same-Ready sending s t c p = subst RetrReady (sym p) c
Same-Ready conn s t c p = tt
Same-Ready protwait s t c p = tt
