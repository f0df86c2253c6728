-- ===== src/Server/Signals/Tests.antt =====
-- The signals of the server at concrete runs.
use bbftp.Base.{if◌then◌else◌, eqb_ℤ, ◌≡◌, refl, inl, false, [], ◌∷◌, none, some, pos, ◌==◌}
use bbftp.Server.{Server, waitpid_call, returns, receiving, waiting_store_start}
use bbftp.Server.Io.{items_of}
use bbftp.Server.Signals.{sigchld, totpid}
use bbftp.Server.Signals.Session.{Resumes, sigchld-Resumes}
use bbftp.Wire.{Message}
use bbftp.Wire.Codes.{msg_trans_start_v3}
use bbftp.Server.Frames.{Ends}
use bbftp.Server.Signals.Interleaved.{Events-Session, child_ends, quiet}
use bbftp.Server.Protocol.Rounds.{Session}
use bbftp.Server.Protocol.Ready.{StoreReady, allocated}
use bbftp.Server.Tests.{store_server}

-- A store with two children, of which one has ended.
abbrev busy : Server
busy = record store_server {
  state = receiving;
  nbpidchild = 2;
  mychildren = some (record { size = 8; items = pos 0 ∷ pos 4711 ∷ [] });
}

busy_ready : StoreReady busy
unfolding allocated
busy_ready = (refl, (refl, (refl, refl)))

busy_lives : (totpid busy.nbpidchild (items_of busy.mychildren) == 0) ≡ false
unfolding totpid
busy_lives = refl

sigchld-Resumes_example : Ends (sigchld busy) (λ _ t. Resumes receiving t)
sigchld-Resumes_example = sigchld-Resumes receiving busy (inl refl) refl busy_ready busy_lives

abbrev waiting : Server
waiting = record store_server { state = waiting_store_start; nbpidchild = 0 }

abbrev start_message : Message
start_message = record { code = msg_trans_start_v3; msglen = pos 4 }

-- Of two children the first has ended well.
abbrev half_done : Server
half_done = record store_server {
  state = receiving;
  nbpidchild = 2;
  mychildren = some (record { size = 8; items = pos 4711 ∷ pos 4712 ∷ [] });
  os = record (store_server.os) {
    waitpid = λ calls pid. if eqb_ℤ pid (pos 4711) then some 0 else none;
  };
}

abbrev one_left : Server
one_left = record half_done {
  mychildren = some (record { size = 8; items = pos 0 ∷ pos 4712 ∷ [] });
  calls = waitpid_call (pos 4712) ∷ waitpid_call (pos 4711) ∷ [];
}

half_done_runs : sigchld half_done ≡ returns tt one_left
unfolding sigchld bbftp.Server.Signals.reap bbftp.Server.Signals.reap_child
    bbftp.Server.Signals.child_ended bbftp.Server.Signals.checkendchild
    bbftp.Server.Signals.forget_child bbftp.Server.Signals.settle_children totpid
half_done_runs = refl

half_done_ready : StoreReady half_done
unfolding allocated
half_done_ready = (refl, (refl, (refl, refl)))

half_done_lives : (totpid half_done.nbpidchild (items_of half_done.mychildren) == 0) ≡ false
unfolding totpid
half_done_lives = refl

half_done-Session : Session half_done
unfolding bbftp.Server.Protocol.Handle.in_session
half_done-Session = (refl, half_done_ready)

Events-Session_example : Session one_left
Events-Session_example =
    Events-Session half_done one_left
      (child_ends (record { transferring = inl refl; child = half_done_lives }) half_done_runs
        quiet)
      half_done-Session
