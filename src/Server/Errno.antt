-- ===== src/Server/Errno.antt =====
-- The values of errno on Linux that the server tests.
use bbftp.Base.{ℕ}

abbrev pub enoent : ℕ
enoent = 2

abbrev pub enomem : ℕ
enomem = 12

abbrev pub eacces : ℕ
eacces = 13

abbrev pub eexist : ℕ
eexist = 17

abbrev pub enotdir : ℕ
enotdir = 20

abbrev pub enospc : ℕ
enospc = 28

abbrev pub erofs : ℕ
erofs = 30

abbrev pub enametoolong : ℕ
enametoolong = 36

abbrev pub eloop : ℕ
eloop = 40

abbrev pub edquot : ℕ
edquot = 122
