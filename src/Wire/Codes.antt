-- ===== src/Wire/Codes.antt =====
-- The message codes and option flags of bbftp-server/includes/structures.h, as a little-endian host
-- has them: the value of the field in memory.
use bbftp.Base.{ℕ}

abbrev pub msg_ok : ℕ
msg_ok = 0x00000000

abbrev pub msg_log : ℕ
msg_log = 0x01000000

abbrev pub msg_store : ℕ
msg_store = 0x02000000

abbrev pub msg_bad : ℕ
msg_bad = 0x03000000

abbrev pub msg_ack : ℕ
msg_ack = 0x04000000

abbrev pub msg_store_c : ℕ
msg_store_c = 0x05000000

abbrev pub msg_crypt : ℕ
msg_crypt = 0x06000000

abbrev pub msg_retr : ℕ
msg_retr = 0x07000000

abbrev pub msg_retr_c : ℕ
msg_retr_c = 0x08000000

abbrev pub msg_retr_ok : ℕ
msg_retr_ok = 0x09000000

abbrev pub msg_retr_rfio : ℕ
msg_retr_rfio = 0x0a000000

abbrev pub msg_retr_rfio_c : ℕ
msg_retr_rfio_c = 0x0b000000

abbrev pub msg_retr_start : ℕ
msg_retr_start = 0x0c000000

abbrev pub msg_abr : ℕ
msg_abr = 0x0d000000

abbrev pub msg_bad_no_retry : ℕ
msg_bad_no_retry = 0x0e000000

abbrev pub msg_mkdir : ℕ
msg_mkdir = 0x0f000000

abbrev pub msg_chdir : ℕ
msg_chdir = 0x10000000

abbrev pub msg_list : ℕ
msg_list = 0x11000000

abbrev pub msg_list_repl : ℕ
msg_list_repl = 0x12000000

abbrev pub msg_create_zero : ℕ
msg_create_zero = 0x13000000

abbrev pub msg_warn : ℕ
msg_warn = 0x14000000

abbrev pub msg_logged_stdin : ℕ
msg_logged_stdin = 0x14000000

abbrev pub msg_ipaddr : ℕ
msg_ipaddr = 0x15000000

abbrev pub msg_ipaddr_ok : ℕ
msg_ipaddr_ok = 0x16000000

abbrev pub msg_prot : ℕ
msg_prot = 0x17000000

abbrev pub msg_prot_ans : ℕ
msg_prot_ans = 0x18000000

abbrev pub msg_store_v2 : ℕ
msg_store_v2 = 0x19000000

abbrev pub msg_retr_v2 : ℕ
msg_retr_v2 = 0x1a000000

abbrev pub msg_abort : ℕ
msg_abort = 0x1b000000

abbrev pub msg_trans_ok_v2 : ℕ
msg_trans_ok_v2 = 0x1c000000

abbrev pub msg_trans_start_v2 : ℕ
msg_trans_start_v2 = 0x1d000000

abbrev pub msg_info : ℕ
msg_info = 0x1e000000

abbrev pub msg_filename : ℕ
msg_filename = 0x1f000000

abbrev pub msg_chumask : ℕ
msg_chumask = 0x20000000

abbrev pub msg_mkdir_v2 : ℕ
msg_mkdir_v2 = 0x21000000

abbrev pub msg_chdir_v2 : ℕ
msg_chdir_v2 = 0x22000000

abbrev pub msg_list_v2 : ℕ
msg_list_v2 = 0x23000000

abbrev pub msg_list_repl_v2 : ℕ
msg_list_repl_v2 = 0x24000000

abbrev pub msg_chcos : ℕ
msg_chcos = 0x25000000

abbrev pub msg_priv_log : ℕ
msg_priv_log = 0x26000000

abbrev pub msg_priv_data : ℕ
msg_priv_data = 0x27000000

abbrev pub msg_close_conn : ℕ
msg_close_conn = 0x28000000

abbrev pub msg_cert_log : ℕ
msg_cert_log = 0x29000000

abbrev pub msg_trans_simul : ℕ
msg_trans_simul = 0x2a000000

abbrev pub msg_trans_start_v3 : ℕ
msg_trans_start_v3 = 0x2b000000

abbrev pub msg_trans_simul_v3 : ℕ
msg_trans_simul_v3 = 0x2c000000

abbrev pub msg_trans_ok_v3 : ℕ
msg_trans_ok_v3 = 0x2d000000

abbrev pub msg_rm : ℕ
msg_rm = 0x2e000000

abbrev pub msg_stat : ℕ
msg_stat = 0x2f000000

abbrev pub msg_df : ℕ
msg_df = 0x30000000

abbrev pub msg_server_status : ℕ
msg_server_status = 0x31000000

abbrev pub tropt_tmp : ℕ
tropt_tmp = 0x01000000

abbrev pub tropt_acc : ℕ
tropt_acc = 0x02000000

abbrev pub tropt_mode : ℕ
tropt_mode = 0x04000000

abbrev pub tropt_dir : ℕ
tropt_dir = 0x08000000

abbrev pub tropt_gzip : ℕ
tropt_gzip = 0x10000000

abbrev pub tropt_rfio : ℕ
tropt_rfio = 0x20000000

abbrev pub tropt_rfio_o : ℕ
tropt_rfio_o = 0x40000000

abbrev pub tropt_qbss : ℕ
tropt_qbss = 0x80000000

abbrev pub data_nocompress : ℕ
data_nocompress = 0x00000000

abbrev pub data_compress : ℕ
data_compress = 0x01000000
