-- ===== src/Server/Transfer/Forks.antt =====
-- The children that the parent forks in passive mode (bbftpd_storetransferfile of
-- bbftp-server/bbftpd/bbftpd_store.c and bbftpd_retrtransferfile of bbftpd_retr.c).
use bbftp.Base.{◌+◌, ◌≡◌, false, List, [], ◌∷◌, some, ◌⊎◌, ℤ, pos, pos_part, eqb_ℤ}
use bbftp.Server.{Server, Call, Block, fork_call, close_socket_call}
use bbftp.Server.Io.{items_of, kill_all, sighup}
use bbftp.Server.Files.{Result}
use bbftp.Server.Transfer.Fragments.{fragments_from}

-- The record of calls with a fork for each piece, the first piece first, and after each the close of the
-- socket of that child.
abbrev pub with_forks : List (ℤ × ℤ) → List ℤ → List Call → List Call
with_forks [] fds calls = calls
with_forks (p ∷ rest) [] calls = calls
with_forks (p ∷ rest) (fd ∷ fds) calls =
    with_forks rest fds (close_socket_call fd ∷ fork_call (p.0) (p.1) ∷ calls)

-- A failure, or these calls and no other.
abbrev pub Forks : List (ℤ × ℤ) → List ℤ → Server → Result → Server → Type 0
Forks pieces fds s r t = (eqb_ℤ (r.0) (pos 0) ≡ false) ⊎ (t.calls ≡ with_forks pieces fds s.calls)

-- What the parent has kept of a child.
abbrev Kept : List Call → Block → Server → Server
Kept calls b s = record s { mychildren = some b; nbpidchild = s.nbpidchild + 1; calls = calls }

-- The sockets of the children, in passive mode.
abbrev pub sockets : Server → List ℤ
sockets s = items_of s.mysockets

abbrev pub pieces_of : Server → List (ℤ × ℤ)
pieces_of s = fragments_from s.filesize s.requestedstreamnumber (pos_part s.requestedstreamnumber) 1

-- A failure, or the forks, and then a SIGHUP to each child.
abbrev pub Wakes : Server → Result → Server → Type 0
Wakes s r t =
    (eqb_ℤ (r.0) (pos 0) ≡ false)
    ⊎ (t.calls
        ≡ kill_all sighup t.nbpidchild (items_of t.mychildren)
            (with_forks (pieces_of s) (sockets s) s.calls))
