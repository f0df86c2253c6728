-- ===== src/Client/Tests.antt =====
-- A client for the concrete runs.
mod Messages
mod Requests
mod Commands
mod Many
mod Endings
mod Lost
use bbftp.Base.{ℕ, true, false, List, [], ◌∷◌, none, some, pos, minus_one}
use bbftp.Channel.{ready, given, taken}
use bbftp.Wire.Codes.{tropt_dir}
use bbftp.Client.{Client, Os, null}

-- A system that has memory, no local directory, and finds no number.
abbrev pub os : Os
os = record {
  malloc = λ calls size. true;
  chdir = λ calls dir. some 2;
  waitpid = λ calls child. some 10;
  chmod = λ calls file mode. none;
  rename = λ calls from to. none;
  scan_decimal = λ word. none;
  scan_octal = λ word. none;
  hostname = none;
  pid = 7;
}

-- A client with so many bytes from its server, on a socket that is always ready.
abbrev pub client : List ℕ → Client
client stream = record {
  insock = record {
    stream = stream;
    selects = ready ∷ ready ∷ ready ∷ ready ∷ [];
    reads = given 99 ∷ given 99 ∷ given 99 ∷ [];
  };
  outsock = record {
    sent = [];
    selects = ready ∷ ready ∷ ready ∷ ready ∷ [];
    writes = taken 99 ∷ taken 99 ∷ taken 99 ∷ taken 99 ∷ [];
  };
  incontrolsock = pos 3;
  outcontrolsock = pos 3;
  ssh_childpid = pos 0;
  protocolmin = pos 2;
  protocolmax = pos 3;
  protocol = pos 0;
  transferoption = tropt_dir;
  statoutput = true;
  remotedir = none;
  curfilename = none;
  realfilename = none;
  state = pos 0;
  mychildren = none;
  filemode = pos 420;
  simulation_mode = false;
  filesize = pos 0;
  lastaccess = [];
  lastmodif = [];
  requestedstreamnumber = pos 1;
  myports = none;
  buffersizeperstream = pos 256;
  localumask = pos 18;
  remoteumask = pos 0;
  remotecos = minus_one;
  nbport = pos 1;
  recvwinsize = pos 256;
  sendwinsize = pos 256;
  ackto = pos 100;
  recvcontrolto = pos 180;
  sendcontrolto = pos 180;
  datato = pos 300;
  his_ctladdr = 1;
  h_addr_list = some (1 ∷ 2 ∷ []);
  globaltrymax = 5;
  connectionisbroken = false;
  myexitcode = 0;
  errcode = 0;
  retcode = pos 0;
  filelist = null;
  calls = [];
  os = os;
}
