-- ===== src/Channel/Tests.antt =====
-- The theorems of the sockets at concrete runs.
use bbftp.Base.{◌≡◌, ℕ, zero, suc, refl, arith, List, [], ◌∷◌, ◌++◌, ◌≤◌, pos, length, take, drop}
use bbftp.Channel.{
  InSock, OutSock, ready, select_failed, given, read_failed, taken, write_failed, done, readmessage,
  discardmessage, writemessage, received, eintr,
}
use bbftp.Channel.Read.{readmessage_accounts, readmessage_exact, readmessage_completes}
use bbftp.Channel.Write.{writemessage_completes}
use bbftp.Channel.Discard.{discardmessage_bounds, discardmessage_overreads}

abbrev zeros : ℕ → List ℕ
zeros zero = []
zeros (suc n) = 0 ∷ zeros n

-- Six bytes that arrive in two pieces, with a signal in between.
abbrev in_pieces : InSock
in_pieces = record {
  stream = 1 ∷ 2 ∷ 3 ∷ 4 ∷ 5 ∷ 6 ∷ [];
  selects = select_failed eintr ∷ ready ∷ ready ∷ ready ∷ ready ∷ [];
  reads = given 3 ∷ read_failed eintr ∷ given 9 ∷ given 1 ∷ given 1 ∷ [];
}

abbrev out_pieces : OutSock
out_pieces = record {
  sent = 0 ∷ [];
  selects = ready ∷ select_failed eintr ∷ ready ∷ ready ∷ [];
  writes = write_failed eintr ∷ taken 2 ∷ taken 9 ∷ taken 1 ∷ [];
}

readmessage_accounts_example :
    ((readmessage in_pieces (pos 5)).buffer ++ (readmessage in_pieces (pos 5)).sock.stream
      ≡ in_pieces.stream)
    × (length (readmessage in_pieces (pos 5)).buffer ≤ 5)
readmessage_accounts_example = readmessage_accounts in_pieces 5

in_pieces_done : (readmessage in_pieces (pos 5)).status ≡ done
unfolding readmessage
in_pieces_done = refl

readmessage_exact_example :
    ((readmessage in_pieces (pos 5)).buffer ≡ take 5 in_pieces.stream)
    × ((readmessage in_pieces (pos 5)).sock.stream ≡ drop 5 in_pieces.stream)
    × (length (readmessage in_pieces (pos 5)).buffer ≡ 5)
readmessage_exact_example = readmessage_exact in_pieces 5 in_pieces_done

readmessage_completes_example :
    ((readmessage in_pieces (pos 4)).status ≡ done)
    × ((readmessage in_pieces (pos 4)).buffer ≡ take 4 in_pieces.stream)
readmessage_completes_example =
    readmessage_completes in_pieces 4 (refl, (tt, (tt, (tt, (tt, tt)))))
      (ground arith, (refl, (ground arith, (ground arith, (ground arith, tt))))) (omega arith)
      (omega arith) (omega arith)

writemessage_completes_example :
    ((writemessage out_pieces (7 ∷ 8 ∷ [])).status ≡ done)
    × ((writemessage out_pieces (7 ∷ 8 ∷ [])).sock.sent ≡ 0 ∷ 7 ∷ 8 ∷ [])
writemessage_completes_example =
    writemessage_completes out_pieces (7 ∷ 8 ∷ []) (tt, (refl, (tt, (tt, tt))))
      (refl, (ground arith, (ground arith, (ground arith, tt)))) (omega arith) (omega arith)

in_pieces_discarded : (discardmessage in_pieces (pos 5)).status ≡ done
unfolding discardmessage
in_pieces_discarded = refl

discardmessage_bounds_example :
    ((discardmessage in_pieces (pos 5)).buffer ++ (discardmessage in_pieces (pos 5)).sock.stream
      ≡ in_pieces.stream)
    × (length (discardmessage in_pieces (pos 5)).buffer ≤ 260)
    × (5 ≤ length (discardmessage in_pieces (pos 5)).buffer)
discardmessage_bounds_example = discardmessage_bounds in_pieces 5 in_pieces_discarded

-- A stream of 300 bytes.
abbrev long_stream : List ℕ
long_stream = zeros 300

discardmessage_overreads_example :
    discardmessage
      (record { stream = long_stream; selects = ready ∷ []; reads = given 256 ∷ [] })
      (pos 10)
    ≡ received (take 256 long_stream) (drop 256 long_stream) [] [] done
discardmessage_overreads_example =
    discardmessage_overreads long_stream 10 [] [] (omega arith) (omega arith) (omega arith)
