-- ===== src/Delivery.antt =====
-- A put and a get from end to end: the children of the client and of the server on the two ends of each
-- data connection (bbftp-client/bbftpc/bbftp_retr.c with bbftp-server/bbftpd/bbftpd_store.c, and
-- bbftpd_retr.c with bbftp_store.c).
mod Tests
use bbftp.Base.{
  ℕ, zero, suc, ◌+◌, ◌^◌, ◌≤◌, ◌<◌, ◌≡◌, refl, sym, ap, ◌∙◌, subst, arith, false, List, [], ◌∷◌,
  ◌++◌, none, ℤ, pos, pos_part, length, length-take, length-drop, get_elem?, take, drop, take-take,
  All, has,
}
use bbftp.Wire.Codes.{tropt_gzip}
use bbftp.Child.{Child, Piece, exits}
use bbftp.Child.Sockets.{Honest}
use bbftp.Child.Pieces.{bytes_of, Consecutive, Interleaved, file_after}
use bbftp.Child.Pieces.Joined.{Laid, Each, Each-map, joined, fragments, fragments-inside}
use bbftp.Child.Rounds.{Delivered}
use bbftp.Child.Sends.{Carried}
use bbftp.Server.Transfer.Fragments.{fragments_from}
use bbftp.Server.Children as AtServer
use bbftp.Server.Children.Store as ServerStore
use bbftp.Server.Children.Retr as ServerRetr
use bbftp.Client.Children as AtClient
use bbftp.Client.Children.Store as ClientStore
use bbftp.Client.Children.Retr as ClientRetr

-- The two ends of one data connection at the start, and where they have ended: a sender that finds the
-- source and has sent nothing, and a receiver that has written nothing and reads what the sender sends.
pub record Link (source : List ℕ) (run : List Piece) : Type 0 where
  pub sender : Child
  pub sender_end : Child
  pub receiver : Child
  pub receiver_end : Child
  pub source_found : sender.unread ≡ source
  pub nothing_sent : sender.outsock.sent ≡ []
  pub nothing_written : receiver.pieces ≡ []
  pub connected : receiver.insock.stream ≡ sender_end.outsock.sent
  pub written : receiver_end.pieces ≡ run
  pub honest_sender : Honest sender
  pub honest_receiver : Honest receiver

-- What a sender carries and a receiver delivers is the fragment.
linked :
    (source : List ℕ) (p : ℤ × ℤ) (run : List Piece) (l : Link source run)
    → Carried (pos_part p.0) (pos_part p.1) l.sender l.sender_end
    → Delivered (pos_part p.0) (pos_part p.1) l.receiver.insock.stream l.receiver_end
    → Laid source p run
linked source p run l carried delivered =
    let a = pos_part p.0 in
    let n = pos_part p.1 in
    let found : drop a l.sender.unread ≡ drop a source = ap (drop a) l.source_found in
    let sent : l.sender_end.outsock.sent ≡ take n (drop a source) =
      carried.sent
      ∙ (ap (λ before. before ++ take n (drop a l.sender.unread)) l.nothing_sent
          ∙ ap (take n) found) in
    (
      subst (Consecutive a) l.written delivered.consecutive,
      ap bytes_of (sym l.written)
          ∙ (delivered.gone ∙ (ap (take n) (l.connected ∙ sent) ∙ take-take n (drop a source))),
      subst (λ xs. n ≤ length xs) found carried.enough,
    )

-- What both children of a put need: the fragment lies in the source, and is below 2 GB.
abbrev IsServed : List ℕ → ℤ × ℤ → Type 0
IsServed source p = (pos_part p.0 + pos_part p.1 ≤ length source) × (pos_part p.1 < 2 ^ 31)

both {ℓ} :
    {A : Type ℓ} (P Q : A → Type 0) (xs : List A) → All P xs → All Q xs → All (λ x. P x × Q x) xs
both P Q [] h k = tt
both P Q (x ∷ xs) h k = ((h.0, k.0), both P Q xs h.1 k.1)

-- The children get the protocol version, and have the buffers of their own programs.
module _ (source : List ℕ) (version : ℤ) (client_kb server_kb streams fuel : ℕ) where
  -- A child of the client that sends fragment `p`, and the server's that stores it, both ending with 0.
  pub record PutLink (p : ℤ × ℤ) (run : List Piece) : Type 0 where
    pub link : Link source run
    pub sends :
        AtClient.retr_child version false
          (pos client_kb)
          streams
          (pos_part p.0)
          (pos_part p.1)
          link.sender
        ≡ exits 0 link.sender_end
    pub stores :
        AtServer.store_child version false
          (pos server_kb)
          fuel
          (pos_part p.0)
          (pos_part p.1)
          link.receiver
        ≡ exits 0 link.receiver_end

  PutLink-Laid :
      0 < client_kb
      → client_kb < 2 ^ 31
      → 0 < server_kb
      → length source ≤ fuel
      → (p : ℤ × ℤ) (run : List Piece) → IsServed source p
      → PutLink p run
      → Laid source p run
  PutLink-Laid room is_int server_room enough p run served c =
      let l = c.link in
      let there : pos_part p.1 ≤ length (drop (pos_part p.0) l.sender.unread) =
        omega
          (arith, served.0, length-drop (pos_part p.0) l.sender.unread, ap length l.source_found) in
      linked source p run l
        (ClientRetr.retr_child-Carries version client_kb streams (pos_part p.0) (pos_part p.1)
          l.sender l.sender_end room is_int l.honest_sender there c.sends)
        (ServerStore.store_child-Delivers version server_kb fuel (pos_part p.0) (pos_part p.1)
          l.receiver l.receiver_end server_room (omega arith) served.1 l.honest_receiver
          l.nothing_written c.stores)

  -- A put over any number of streams that is not simulated delivers the file: where every child of the
  -- client and of the server ends with 0, the file that the server's children have made, in whatever
  -- order their writes came, has the bytes of the source at each offset and none behind its end. The fragments are below
  -- 2 GB, the buffers have room, the bound on the rounds is the length of the source at least, the file
  -- is new, and errors have an errno.
  pub put_delivers :
      (k : ℕ) (runs : List (List Piece)) (order : List Piece)
      → 0 < client_kb
      → client_kb < 2 ^ 31
      → 0 < server_kb
      → length source ≤ fuel
      → All (λ p. pos_part p.1 < 2 ^ 31) (fragments source k)
      → Each PutLink (fragments source k) runs
      → Interleaved runs order
      → (q : ℕ) → file_after order (λ _. none) q ≡ get_elem? source q
  put_delivers k runs order room is_int server_room enough small links merged q =
      joined source k runs order
        (Each-map (IsServed source) PutLink (Laid source)
          (PutLink-Laid room is_int server_room enough) (fragments source k) runs
          (both (λ p. pos_part p.0 + pos_part p.1 ≤ length source) (λ p. pos_part p.1 < 2 ^ 31)
            (fragments source k) (fragments-inside source k) small)
          links)
        merged q

module _ (source : List ℕ) (options : ℕ) (version : ℤ) (client_kb server_kb streams fuel : ℕ) where
  -- A child of the server that sends fragment `p`, and the client's that stores it, both ending with 0.
  pub record GetLink (p : ℤ × ℤ) (run : List Piece) : Type 0 where
    pub link : Link source run
    pub sends :
        AtServer.retr_child options version false
          (pos server_kb)
          (pos_part p.0)
          (pos_part p.1)
          link.sender
        ≡ exits 0 link.sender_end
    pub stores :
        AtClient.store_child version false
          (pos client_kb)
          fuel
          streams
          (pos_part p.0)
          (pos_part p.1)
          link.receiver
        ≡ exits 0 link.receiver_end

  GetLink-Laid :
      has options tropt_gzip ≡ false
      → 0 < client_kb
      → length source ≤ fuel
      → (p : ℤ × ℤ) (run : List Piece) → pos_part p.0 + pos_part p.1 ≤ length source
      → GetLink p run
      → Laid source p run
  GetLink-Laid plain room enough p run inside c =
      let l = c.link in
      linked source p run l
        (ServerRetr.retr_child-Carries options version server_kb (pos_part p.0) (pos_part p.1)
          l.sender l.sender_end plain l.honest_sender c.sends)
        (ClientStore.store_child-Delivers version client_kb fuel streams (pos_part p.0)
          (pos_part p.1) l.receiver l.receiver_end room (omega arith) l.honest_receiver
          l.nothing_written c.stores)

  -- A get without TROPT_GZIP that is not simulated, over any number of streams, delivers the file: where
  -- every child of the server and of the client ends with 0, the file that the client's children have
  -- made, in whatever order their writes came, has the bytes of the source at each offset and none behind its end. The client's buffer
  -- has room, the bound on the rounds is the length of the source at least, the file is new, and errors
  -- have an errno.
  pub get_delivers :
      (k : ℕ) (runs : List (List Piece)) (order : List Piece)
      → has options tropt_gzip ≡ false
      → 0 < client_kb
      → length source ≤ fuel
      → Each GetLink (fragments source k) runs
      → Interleaved runs order
      → (q : ℕ) → file_after order (λ _. none) q ≡ get_elem? source q
  get_delivers k runs order plain room enough links merged q =
      joined source k runs order
        (Each-map (λ p. pos_part p.0 + pos_part p.1 ≤ length source) GetLink (Laid source)
          (GetLink-Laid plain room enough) (fragments source k) runs (fragments-inside source k)
          links)
        merged q
