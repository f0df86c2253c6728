-- ===== src/Client/Asking/Contract.antt =====
-- What the requests of bbftp_put and bbftp_get promise.
use bbftp.Base.{
  ℕ, ◌+◌, ◌-◌, ◌^◌, ◌<◌, ◌≡◌, refl, arith, Bool, true, ◌&&◌, ◌||◌, not, List, ℤ, pos, negsuc, eqb_ℤ,
  if◌then◌else◌, ◌==◌, length, ltb,
}
use bbftp.Wire.{Message, StoreV2, decode_message, decode_store}
use bbftp.Wire.Codes.{msg_ok, msg_bad, msg_bad_no_retry, msg_trans_ok_v2, msg_trans_ok_v3}
use bbftp.Client.{Client, Text, M, pure, ◌>>◌}
use bbftp.Client.Io.{
  send_all, receive, waitcontrol, malloc, close_control, bb_ret_conn_broken,
  bb_ret_ft_nr_conn_broken,
}
use bbftp.Client.Listing.{free_all_var}
use bbftp.Client.Frames.{Ends, Ends-bind, Ends-mono, Ends-if, Ends-option}
use bbftp.Client.Frames.Control.{
  Settles, Settles-after, Settles-bind, Closed, send_all-Closed, waitcontrol-Closed, receive-Closed,
  malloc-Closed, broken,
}
use bbftp.Client.Ending.{read_body, discard_rest}
use bbftp.Client.Asking.{
  drop_connection, ask_server, ask_refused, read_myports, drop_gzip, read_store, put_answered,
  keep_store, get_answered, ask_put, ask_get,
}

drop_connection-Settles :
    (err : ℕ) (r : ℤ) (s : Client)
    → 0 < err
    → broken r ≡ true
    → Ends (drop_connection err r s) (Settles s)
unfolding drop_connection close_control free_all_var
drop_connection-Settles err r s h b = ground arith

-- After a change of the variables that leaves the connection alone.
Settles-from :
    (s u : Client) (m : M ℤ) → Closed 0 s u → Ends (m u) (Settles u) → Ends (m u) (Settles s)
Settles-from s u m c h = Ends-mono (m u) _ _ h (λ r v. Settles-after s u v r c)

read_body-Settles :
    (n : ℤ) (no_memory lost : M ℤ) (next : Text → M ℤ) (s : Client)
    → ((t : Client) → Ends (no_memory t) (Settles t))
    → ((t : Client) → Ends (lost t) (Settles t))
    → ((bytes : Text) (t : Client) → Ends (next bytes t) (Settles t))
    → Ends (read_body n no_memory lost next s) (Settles s)
unfolding read_body
read_body-Settles (negsuc n) no_memory lost next s h k l =
    Settles-bind s (malloc _ s) _ (malloc-Closed _ s)
      λ fits t. Ends-if fits _ _ t _ (λ _. tt) (λ _. h t)
read_body-Settles (pos n) no_memory lost next s h k l =
    Ends-if (n == 2 ^ 31 - 1) _ _ s _ (λ _. tt)
      λ _. Settles-bind s (malloc (n + 1) s) _ (malloc-Closed (n + 1) s) λ fits t.
        Ends-if (not fits) _ _ t _ (λ _. h t)
          λ _.
            Settles-bind t (receive (pos n) t) _ (receive-Closed (pos n) t)
              λ r u. Ends-option r _ _ u _ (λ _. k u) (λ bytes _. l bytes u)

ask_server-Settles :
    (parts : List Text) (answered : Message → M ℤ) (s : Client)
    → ((msg : Message) (t : Client) → Ends (answered msg t) (Settles t))
    → Ends (ask_server parts answered s) (Settles s)
unfolding ask_server
ask_server-Settles parts answered s h =
    Settles-bind s (send_all parts s) _ (send_all-Closed parts s) λ sent t.
      Ends-if (not sent) _ _ t _
        (λ _. drop_connection-Settles 64 bb_ret_conn_broken t (omega arith) refl)
        λ _. Settles-bind t (waitcontrol t) _ (waitcontrol-Closed t) λ input u.
          Ends-if (not input) _ _ u _
            (λ _. drop_connection-Settles 66 bb_ret_conn_broken u (omega arith) refl)
            λ _. Settles-bind u (receive (pos 8) u) _ (receive-Closed (pos 8) u) λ head v.
              Ends-option head _ _ v _
                (λ _. drop_connection-Settles 61 bb_ret_conn_broken v (omega arith) refl)
                (λ bytes _. h (decode_message bytes) v)

ask_refused-Settles :
    (free_names : M (Unit {0})) (code : ℕ) (n : ℤ) (s : Client)
    → ((t : Client) → Ends (free_names t) (λ _ u. Closed 0 t u × (u.errcode ≡ t.errcode)))
    → Ends (ask_refused free_names code n s) (Settles s)
unfolding ask_refused free_all_var
ask_refused-Settles free_names code n s h =
    read_body-Settles n _ _ _ s
      (λ t. drop_connection-Settles 35 bb_ret_conn_broken t (omega arith) refl)
      (λ t.
        drop_connection-Settles 67
          (if code == msg_bad then bb_ret_conn_broken else bb_ret_ft_nr_conn_broken) t (omega arith)
          (ground arith))
      (λ bytes t.
        let u = record t { errcode = 100 } in
        Ends-if (code == msg_bad) _ _ u _
          (λ _.
            Ends-bind (free_names u) _ _ _ (h u)
              λ _ v p. ground (arith, p.0.count, p.0.incoming, p.0.outgoing, p.1))
          (λ _. ground arith))

read_myports-Settles :
    (next : M ℤ) (s : Client)
    → ((t : Client) → Ends (next t) (Settles t))
    → Ends (read_myports next s) (Settles s)
unfolding read_myports
read_myports-Settles next s h = Settles-bind s (malloc _ s) _ (malloc-Closed _ s) λ fits t.
    Ends-if (not fits) _ _ t _
      (λ _. drop_connection-Settles 35 bb_ret_conn_broken t (omega arith) refl)
      λ _. Settles-bind t (receive _ t) _ (receive-Closed _ t) λ r u.
        Ends-option r _ _ u _
          (λ _. drop_connection-Settles 68 bb_ret_conn_broken u (omega arith) refl)
          (λ bytes _. Settles-from u _ next (ground arith) (h _))

read_store-Settles :
    (n : ℤ) (next : StoreV2 → M ℤ) (s : Client)
    → ((m : StoreV2) (t : Client) → Ends (next m t) (Settles t))
    → Ends (read_store n next s) (Settles s)
unfolding read_store
read_store-Settles n next s h =
    read_body-Settles n _ _ _ s
      (λ t. drop_connection-Settles 35 bb_ret_conn_broken t (omega arith) refl)
      (λ t. drop_connection-Settles 67 bb_ret_conn_broken t (omega arith) refl)
      (λ bytes t. Ends-if (ltb (length bytes) 48) _ _ t _ (λ _. tt) (λ _. h (decode_store bytes) t))

gzip_dropped-Settles :
    (m : StoreV2) (next : M ℤ) (s : Client)
    → ((t : Client) → Ends (next t) (Settles t))
    → Ends ((drop_gzip m >> next) s) (Settles s)
unfolding drop_gzip
gzip_dropped-Settles m next s h = Settles-bind s (drop_gzip m s) _ (ground arith) (λ _ t. h t)

-- With the ports of a passive server or without them.
ports_read-Settles :
    (passive : Bool) (m : StoreV2) (next : M ℤ) (s : Client)
    → ((t : Client) → Ends (next t) (Settles t))
    → Ends
        ((if passive then read_myports (drop_gzip m >> next) else drop_gzip m >> next) s)
        (Settles s)
ports_read-Settles passive m next s h =
    Ends-if passive _ _ s _ (λ _. read_myports-Settles _ s (λ t. gzip_dropped-Settles m next t h))
      (λ _. gzip_dropped-Settles m next s h)

put_answered-Settles :
    (go_on : M ℤ) (msg : Message) (s : Client)
    → ((t : Client) → Ends (go_on t) (Settles t))
    → Ends (put_answered go_on msg s) (Settles s)
unfolding put_answered discard_rest free_all_var
put_answered-Settles go_on msg s h =
    Ends-if ((msg.code == msg_bad) || (msg.code == msg_bad_no_retry)) _ _ s _
      (λ _. ask_refused-Settles (pure tt) msg.code msg.msglen s (λ t. ground arith))
      λ _.
        Ends-if ((msg.code == msg_trans_ok_v2) || (msg.code == msg_trans_ok_v3)) _ _ s _
          (λ _. read_store-Settles msg.msglen _ s λ m t.
            let u = record t { requestedstreamnumber = m.nbstream } in
            let passive = msg.code == msg_trans_ok_v3 in
            Settles-from t u
              (if passive then read_myports (drop_gzip m >> go_on) else drop_gzip m >> go_on)
              (ground arith) (ports_read-Settles passive m go_on u h))
          λ _.
            Ends-if (msg.code == msg_ok) _ _ s _
              (λ _.
                Settles-bind s (discard_rest msg.msglen s) _ (ground arith) (λ _ t. ground arith))
              (λ _. drop_connection-Settles 62 bb_ret_conn_broken s (omega arith) refl)

get_answered-Settles :
    (go_on : M ℤ) (msg : Message) (s : Client)
    → ((t : Client) → Ends (go_on t) (Settles t))
    → Ends (get_answered go_on msg s) (Settles s)
unfolding get_answered keep_store free_all_var
get_answered-Settles go_on msg s h =
    Ends-if ((msg.code == msg_bad) || (msg.code == msg_bad_no_retry)) _ _ s _
      (λ _. ask_refused-Settles free_all_var msg.code msg.msglen s (λ t. ground arith))
      λ _.
        Ends-if ((msg.code == msg_trans_ok_v2) || (msg.code == msg_trans_ok_v3)) _ _ s _
          (λ _. read_store-Settles msg.msglen _ s λ m t.
            let passive = not (eqb_ℤ m.filesize (pos 0)) && (msg.code == msg_trans_ok_v3) in
            Settles-bind t (keep_store m t)
              (λ _. if passive then read_myports (drop_gzip m >> go_on) else drop_gzip m >> go_on)
              (ground arith) (λ _ u. ports_read-Settles passive m go_on u h))
          (λ _. drop_connection-Settles 62 bb_ret_conn_broken s (omega arith) refl)

-- Whatever the server and the system answer, and whatever the rest of the two does that keeps the same
-- promise: where bbftp_put or bbftp_get returns, it has closed the descriptors of the connection,
-- once each, exactly if its result says that the connection is broken; and where the result is not
-- BB_RET_OK, errcode is a code that is not 0.
pub asks-Settle :
    (name : Text) (rest : M ℤ) (s : Client)
    → ((t : Client) → Ends (rest t) (Settles t))
    → Ends (ask_put name rest s) (Settles s) × Ends (ask_get name rest s) (Settles s)
unfolding ask_put ask_get
asks-Settle name rest s h = (
  ask_server-Settles _ (put_answered rest) s (λ msg t. put_answered-Settles rest msg t h),
  ask_server-Settles _ (get_answered rest) s (λ msg t. get_answered-Settles rest msg t h),
)
