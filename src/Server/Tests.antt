-- ===== src/Server/Tests.antt =====
-- The theorems of the server at concrete runs.
use bbftp.Base.{
  bit, ltb_ℤ, ◌≤◌, ◌++◌, snprintf, ◌≡◌, refl, pos, true, false, Option, none, some, [], ◌∷◌, inl,
  text,
}
use bbftp.Channel.{InSock, OutSock, ready, given, taken}
use bbftp.Wire.{Message, encode_len}
use bbftp.Wire.Codes.{msg_abort}
use bbftp.Server.{
  malloc_call, Server, Outcome, exits, waits, faults, Os, Block, absent, logged, waiting_retr_start,
  returns, waiting_store_start,
}
use bbftp.Server.Files.{Result}
use bbftp.Server.Files.Create.{storemkdir}
use bbftp.Server.Frames.{Ends}
use bbftp.Server.Files.{checked_options, known_options}
use bbftp.Server.Files.Options.{checked_options-restricts}
use bbftp.Server.Loop.{round}
use bbftp.Server.Handlers.Dispatch.{handle}
use bbftp.Server.Transfer.Fragments.{Tiles, fragments_from, fragments-tile}
use bbftp.Server.Protocol.Ready.{Advances}
use bbftp.Server.Protocol.Handle.{handle-Advances}
use bbftp.Server.Protocol.Rounds.{Session, stop, next, Rounds-Session}

-- A system on which every call succeeds, and no path is there yet.
abbrev quiet : Os
quiet = record {
  malloc = λ calls n. true;
  unlink = λ calls path. none;
  mkdir = λ calls path. none;
  stat = λ calls path. absent 2;
  create = λ calls path. none;
  close = λ calls path. none;
  chdir = λ calls path. none;
  getcwd = λ calls. inl (text "/");
  utime = λ calls path. none;
  chmod = λ calls path mode. none;
  rename = λ calls a b. none;
  fork = λ calls. inl (pos 4711);
  waitpid = λ calls pid. some 0;
  strerror = λ e. text "error";
  hostname = some (text "host");
  pid = 42;
  receivesocket = λ calls port. inl (pos 7);
  datasocks = λ calls n. some ((pos 5, pos 5021) ∷ []);
  pending = λ calls timeout. some true;
  list = λ calls options path. ([], pos 0);
  statmsg = λ calls path. ([], pos 0);
  statfs = λ calls path. ([], pos 0);
}

-- A server whose client has sent MSG_ABORT.
abbrev pub server : Server
server = record {
  state = logged;
  protocolversion = pos 3;
  maxstreams = pos 10;
  transferoption = 0;
  filemode = pos 0;
  lastaccess = [];
  lastmodif = [];
  sendwinsize = pos 256;
  recvwinsize = pos 256;
  buffersizeperstream = pos 256;
  requestedstreamnumber = pos 1;
  filesize = pos 1000;
  umask = pos 18;
  curfilename = none;
  realfilename = none;
  myports = none;
  mysockets = none;
  mychildren = none;
  readbuffer = none;
  compbuffer = none;
  nbpidchild = 0;
  unlinkfile = 0;
  childendinerror = false;
  killdone = false;
  insock = record {
    stream = encode_len msg_abort (pos 0);
    selects = ready ∷ [];
    reads = given 8 ∷ [];
  };
  outsock = record { sent = []; selects = ready ∷ ready ∷ []; writes = taken 8 ∷ taken 100 ∷ [] };
  calls = [];
  os = quiet;
}

abbrev block_of_4 : Option Block
block_of_4 = some (record { size = 4; items = [] })

-- The same server, ready to run a store.
abbrev pub store_server : Server
store_server = record server {
  state = waiting_store_start;
  curfilename = some (text "f");
  realfilename = some (text "f.bbftp.tmp.host.42");
  myports = block_of_4;
  mysockets = block_of_4;
  mychildren = block_of_4;
  readbuffer = some 262144;
}

abbrev abort : Message
abort = record { code = msg_abort; msglen = pos 0 }

store_server-Session : Session store_server
unfolding bbftp.Server.Protocol.Handle.in_session bbftp.Server.Protocol.Ready.allocated
store_server-Session = (refl, (refl, (refl, (refl, refl))))

handle-Advances_example :
    Ends (handle waiting_store_start abort store_server) (Advances waiting_store_start)
handle-Advances_example =
    handle-Advances waiting_store_start abort store_server refl (store_server-Session.0)
      (store_server-Session.1)

fragments-tile_example : Tiles 0 1000 (fragments_from (pos 1000) (pos 3) 3 1)
fragments-tile_example = fragments-tile 1000 2

abbrev server_of {ℓ} : {A : Type ℓ} → Outcome A → Server
server_of (returns a t) = t
server_of (exits n t) = t
server_of (waits t) = t
server_of (faults e t) = t

abort_round : round store_server ≡ returns none (server_of (round store_server))
unfolding round bbftp.Server.Loop.handle_pending bbftp.Server.Io.msgread_msg bbftp.Server.Io.receive
    bbftp.Channel.readmessage encode_len bbftp.Wire.le32 bbftp.Server.Loop.handle_read handle
    bbftp.Server.Handlers.Dispatch.handle_waiting_store_start bbftp.Wire.decode_message
    bbftp.Wire.of_le32 bbftp.Server.Handlers.Dispatch.drop_store bbftp.Server.Files.storeunlink
    bbftp.Server.Io.free_all_var bbftp.Server.Loop.after
abort_round = refl

Rounds-Session_example : Session (server_of (round store_server))
Rounds-Session_example =
    Rounds-Session store_server (server_of (round store_server)) (next abort_round stop)
      store_server-Session

-- A server without memory.
abbrev poor_server : Server
poor_server = record server { os = record quiet { malloc = λ calls n. false } }

abbrev poor_made : Result
poor_made = (pos 1, snprintf 1024 (text "Error allocating memory for dirpath : " ++ text "error"))

poor_storemkdir :
    storemkdir (text "d") false poor_server
    ≡ returns poor_made (record poor_server { calls = malloc_call 2 ∷ [] })
unfolding storemkdir bbftp.Server.Io.malloc text
poor_storemkdir = refl

-- A client that asks for compression, and for an option that nobody knows.
abbrev packing_server : Server
packing_server = record server { transferoption = 0x19000001; requestedstreamnumber = pos 99 }

checked_options-restricts_example :
    (bit 0 (checked_options packing_server).transferoption ≤ bit 0 packing_server.transferoption)
    × (bit 0 (checked_options packing_server).transferoption ≤ bit 0 known_options)
    × (ltb_ℤ packing_server.maxstreams (checked_options packing_server).requestedstreamnumber
        ≡ false)
checked_options-restricts_example = checked_options-restricts packing_server 0
