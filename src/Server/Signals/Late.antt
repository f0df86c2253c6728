-- ===== src/Server/Signals/Late.antt =====
-- A SIGCHLD that comes late (bbftp-server/bbftpd/bbftpd_signals.c), before the message that starts the
-- next transfer (bbftpd_readcontrol.c).
use bbftp.Base.{none}
use bbftp.Server.{Server}

-- The variables once the handler has freed them.
abbrev freed : Server → Server
freed s = record s {
  curfilename = none;
  realfilename = none;
  myports = none;
  mysockets = none;
  mychildren = none;
  readbuffer = none;
  compbuffer = none;
  nbpidchild = 0;
}
