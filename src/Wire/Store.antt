-- ===== src/Wire/Store.antt =====
-- The parameters of a transfer on the wire.
use bbftp.Base.{
  c_string, replicate, length-take, length-append, ℕ, ◌+◌, ◌/◌, ◌%◌, ◌^◌, ◌<◌, ◌≡◌, refl, List, [],
  ◌∷◌, ◌++◌, arith, ℤ, pos, negsuc, of_int, to_size, IsInt, take, drop, length, ◌∙◌, ap, sym, suc,
}
use mathlib.Core.List.{append-nil}
use bbftp.Wire.{
  StoreV2, le32, of_le32, le64, of_le64, to_long, htonl, ntohll, pad8, decode_int, encode_store,
  decode_store,
}
use bbftp.Wire.Words.{htonl-lt, of_le32-le32, decode_int-encode, ntohll-ntohll}

-- The values of a 64-bit integer.
abbrev pub IsLong : ℤ → Type 0
IsLong (pos n) = n < 2 ^ 63
IsLong (negsuc n) = n < 2 ^ 63

to_long-to_size : (z : ℤ) → IsLong z → to_long (to_size z) ≡ z
unfolding to_long
to_long-to_size (pos n) h = ground arith
to_long-to_size (negsuc n) h = ground arith

to_size-lt : (z : ℤ) → to_size z < 2 ^ 64
to_size-lt (pos n) = omega arith
to_size-lt (negsuc n) = omega arith

ntohll-lt : (v : ℕ) → ntohll v < 2 ^ 64
unfolding ntohll
ntohll-lt v = omega (arith, htonl-lt (v / 2 ^ 32 % 2 ^ 32), htonl-lt (v % 2 ^ 32))

of_le64-le64 : (v : ℕ) → v < 2 ^ 64 → of_le64 (le64 v) ≡ v
unfolding of_le64 le64 le32 of_le32
of_le64-le64 v h = omega arith

no_more : (k : ℕ) → 0 + k ≡ k
no_more k = omega arith

one_more : (n k : ℕ) → suc n + k ≡ suc (n + k)
one_more n k = omega arith

dropped : (k : ℕ) (a rest : List ℕ) → drop (length a + k) (a ++ rest) ≡ drop k rest
dropped k [] rest = ap (λ n. drop n rest) (no_more k)
dropped k (x ∷ a) rest =
    ap (λ n. drop n (x ∷ (a ++ rest))) (one_more (length a) k) ∙ dropped k a rest

whole : (a rest : List ℕ) → take (length a) (a ++ rest) ≡ a
whole [] rest = refl
whole (x ∷ a) rest = ap (λ t. x ∷ t) (whole a rest)

length-pad8 : (t : List ℕ) → length (pad8 t) ≡ 8
unfolding pad8
length-pad8 t =
    let s = c_string (take 8 t) in
    let zeros : List ℕ = replicate 8 0 in
    omega (arith, length-take 8 (s ++ zeros), length-append s zeros)

taken8 : (a rest : List ℕ) → length a ≡ 8 → take 8 (a ++ rest) ≡ a
taken8 a rest e = ap (λ n. take n (a ++ rest)) (sym e) ∙ whole a rest

drop-append8 : (k : ℕ) (a rest : List ℕ) → length a ≡ 8 → drop (8 + k) (a ++ rest) ≡ drop k rest
drop-append8 k a rest e = ap (λ n. drop (n + k) (a ++ rest)) (sym e) ∙ dropped k a rest

same_store :
    (x y : StoreV2)
    → x.filesize ≡ y.filesize
    → x.transferoption ≡ y.transferoption
    → x.filemode ≡ y.filemode
    → x.lastaccess ≡ y.lastaccess
    → x.lastmodif ≡ y.lastmodif
    → x.sendwinsize ≡ y.sendwinsize
    → x.recvwinsize ≡ y.recvwinsize
    → x.buffersizeperstream ≡ y.buffersizeperstream
    → x.nbstream ≡ y.nbstream
    → x ≡ y
same_store x y p1 p2 p3 p4 p5 p6 p7 p8 p9 i = record {
  filesize = p1 i;
  transferoption = p2 i;
  filemode = p3 i;
  lastaccess = p4 i;
  lastmodif = p5 i;
  sendwinsize = p6 i;
  recvwinsize = p7 i;
  buffersizeperstream = p8 i;
  nbstream = p9 i;
}

-- The parameters that the structure carries survive the way into the buffer and out of it, where they
-- are values of their C types; the two times come out as strncpy leaves them in their eight bytes.
pub decode_store-encode_store :
    (m : StoreV2)
    → IsLong m.filesize
    → m.transferoption < 2 ^ 32
    → IsInt m.filemode
    → IsInt m.sendwinsize
    → IsInt m.recvwinsize
    → IsInt m.buffersizeperstream
    → IsInt m.nbstream
    → decode_store (encode_store m)
      ≡ record m { lastaccess = pad8 m.lastaccess; lastmodif = pad8 m.lastmodif }
unfolding encode_store decode_store le64 le32
decode_store-encode_store m hs ho hm hw hr hb hn =
    let a = pad8 m.lastaccess in
    let b = pad8 m.lastmodif in
    let n = le32 (htonl (of_int m.nbstream)) in
    let t4 = le32 (htonl (of_int m.buffersizeperstream)) ++ n in
    let t3 = le32 (htonl (of_int m.recvwinsize)) ++ t4 in
    let t2 = le32 (htonl (of_int m.sendwinsize)) ++ t3 in
    let size : to_long (ntohll (of_le64 (le64 (ntohll (to_size m.filesize))))) ≡ m.filesize =
      ap (λ v. to_long (ntohll v)) (of_le64-le64 _ (ntohll-lt (to_size m.filesize)))
      ∙ (ap to_long (ntohll-ntohll (to_size m.filesize) (to_size-lt m.filesize))
          ∙ to_long-to_size m.filesize hs) in
    let la = length-pad8 m.lastaccess in
    let lb = length-pad8 m.lastmodif in
    same_store _ _ size (of_le32-le32 m.transferoption _ ho) (decode_int-encode m.filemode _ hm)
      (taken8 a (b ++ t2) la) (ap (take 8) (drop-append8 0 a (b ++ t2) la) ∙ taken8 b t2 lb)
      (ap decode_int (drop-append8 8 a (b ++ t2) la ∙ drop-append8 0 b t2 lb)
        ∙ decode_int-encode m.sendwinsize t3 hw)
      (ap decode_int (drop-append8 12 a (b ++ t2) la ∙ drop-append8 4 b t2 lb)
        ∙ decode_int-encode m.recvwinsize t4 hr)
      (ap decode_int (drop-append8 16 a (b ++ t2) la ∙ drop-append8 8 b t2 lb)
        ∙ decode_int-encode m.buffersizeperstream n hb)
      (ap decode_int (drop-append8 20 a (b ++ t2) la ∙ drop-append8 12 b t2 lb)
        ∙ (ap decode_int (sym (append-nil n)) ∙ decode_int-encode m.nbstream [] hn))
