-- ===== src/Delivery/Tests.antt =====
-- A put and a get of three bytes over two streams.
use bbftp.Base.{
  ℕ, ◌^◌, ◌<◌, ◌≡◌, refl, arith, List, [], ◌∷◌, true, false, none, pos, pos_part, get_elem?, All,
}
use bbftp.Channel.{
  ready, given, taken, readmessage, writemessage, readmessage_by, writemessage_by, read_loop,
  write_loop, try_select,
}
use bbftp.Wire.{encode_len, decode_message, le32, of_le32, htonl}
use bbftp.Wire.Codes.{msg_ack}
use bbftp.Child.{
  Child, Piece, Outcome, returns, exits, waits, spins, attempt, persist, send_by, receive_by,
  write_file, remaining,
}
use bbftp.Child.Sockets.{Honest}
use bbftp.Child.Pieces.{file_after, Interleaved}
use bbftp.Child.Pieces.Joined.{fragments, Each}
use bbftp.Server.Transfer.{fragment}
use bbftp.Server.Transfer.Fragments.{fragments_from}
use bbftp.Server.Files.Retr.{div_ℤ}
use mathlib.Core.Bool.{xor}
use bbftp.Base.{mul_ℕ, sub_ℤ}
use bbftp.Server.Children as AtServer
use bbftp.Client.Children as AtClient
use bbftp.Client.Io as ClientIo
use bbftp.Delivery.{PutLink, GetLink, put_delivers, get_delivers}

abbrev state_of {ℓ} : {A : Type ℓ} → Outcome A → Child
state_of (returns a t) = t
state_of (exits n t) = t
state_of (waits t) = t
state_of (spins t) = t

abbrev source : List ℕ
source = 10 ∷ 20 ∷ 30 ∷ []

abbrev sender : Child
sender = record {
  unread = source;
  offset = 0;
  pieces = [];
  insock = record {
    stream = encode_len msg_ack (pos 0);
    selects = ready ∷ [];
    reads = given 8 ∷ [];
  };
  outsock = record { sent = []; selects = ready ∷ []; writes = taken 9 ∷ [] };
  reads = given 9 ∷ [];
  writes = [];
  stats = none ∷ [];
  opens = none ∷ [];
  seeks = none ∷ [];
  selects = ready ∷ [];
  accepts = none ∷ [];
  closes = none ∷ [];
  flagsighup = true ∷ [];
  errno = 0;
  calls = [];
}

abbrev receiver : List ℕ → Child
receiver stream = record sender {
  unread = [];
  insock = record { stream = stream; selects = ready ∷ []; reads = given 9 ∷ [] };
  outsock = record { sent = []; selects = ready ∷ []; writes = taken 8 ∷ [] };
  writes = taken 9 ∷ [];
}

abbrev put_sender_end : ℕ → ℕ → Child
put_sender_end start n = state_of (AtClient.retr_child (pos 3) false (pos 1024) 2 start n sender)

abbrev put_receiver_end : ℕ → ℕ → Child
put_receiver_end start n = state_of (
    AtServer.store_child (pos 3) false (pos 1024) 3 start n
      (receiver (put_sender_end start n).outsock.sent))

sender-Honest : Honest sender
sender-Honest = record {
  incoming = omega arith;
  outgoing = omega arith;
  reads = omega arith;
  writes = omega arith;
  stats = omega arith;
  opens = omega arith;
  seeks = omega arith;
  selects = omega arith;
  accepts = omega arith;
  closes = omega arith;
}

receiver-Honest : (stream : List ℕ) → Honest (receiver stream)
receiver-Honest stream = record {
  incoming = omega arith;
  outgoing = omega arith;
  reads = omega arith;
  writes = omega arith;
  stats = omega arith;
  opens = omega arith;
  seeks = omega arith;
  selects = omega arith;
  accepts = omega arith;
  closes = omega arith;
}

abbrev piece : ℕ → List ℕ → Piece
piece start bytes = record { offset = start; bytes = bytes }

abbrev first_run : List Piece
first_run = piece 0 (10 ∷ []) ∷ []

abbrev second_run : List Piece
second_run = piece 1 (20 ∷ 30 ∷ []) ∷ []

-- The second child writes before the first.
abbrev second_first : List Piece
second_first = piece 1 (20 ∷ 30 ∷ []) ∷ piece 0 (10 ∷ []) ∷ []

merged : Interleaved (first_run ∷ second_run ∷ []) second_first
merged = Interleaved.write (first_run ∷ []) (piece 1 (20 ∷ 30 ∷ [])) [] [] refl (
    Interleaved.write [] (piece 0 (10 ∷ [])) [] ([] ∷ []) refl
      (Interleaved.finished (refl, (refl, tt))))

put_first : PutLink source (pos 3) 1024 1024 2 3 (pos 0, pos 1) first_run
unfolding AtClient.retr_child AtClient.close_inherited attempt AtClient.await_peer
    AtClient.take_connection AtClient.retr_rounds AtClient.round_amount AtClient.pass_on send_by
    AtClient.send_data AtClient.send_loop AtClient.acknowledged receive_by ClientIo.readmessage
    readmessage_by read_loop try_select encode_len decode_message le32 of_le32 htonl
    AtServer.store_child AtServer.wait_for_parent AtServer.wait_calls AtServer.open_file_fragment
    persist AtServer.connection AtServer.store_rounds AtServer.datatoreceive readmessage write_file
    remaining AtServer.acknowledge writemessage writemessage_by write_loop
put_first = record {
  link = record {
    sender = sender;
    sender_end = put_sender_end 0 1;
    receiver = receiver (put_sender_end 0 1).outsock.sent;
    receiver_end = put_receiver_end 0 1;
    source_found = refl;
    nothing_sent = refl;
    nothing_written = refl;
    connected = refl;
    written = refl;
    honest_sender = sender-Honest;
    honest_receiver = receiver-Honest (put_sender_end 0 1).outsock.sent;
  };
  sends = refl;
  stores = refl;
}

put_second : PutLink source (pos 3) 1024 1024 2 3 (pos 1, pos 2) second_run
unfolding AtClient.retr_child AtClient.close_inherited attempt AtClient.await_peer
    AtClient.take_connection AtClient.retr_rounds AtClient.round_amount AtClient.pass_on send_by
    AtClient.send_data AtClient.send_loop AtClient.acknowledged receive_by ClientIo.readmessage
    readmessage_by read_loop try_select encode_len decode_message le32 of_le32 htonl
    AtServer.store_child AtServer.wait_for_parent AtServer.wait_calls AtServer.open_file_fragment
    persist AtServer.connection AtServer.store_rounds AtServer.datatoreceive readmessage write_file
    remaining AtServer.acknowledge writemessage writemessage_by write_loop
put_second = record {
  link = record {
    sender = sender;
    sender_end = put_sender_end 1 2;
    receiver = receiver (put_sender_end 1 2).outsock.sent;
    receiver_end = put_receiver_end 1 2;
    source_found = refl;
    nothing_sent = refl;
    nothing_written = refl;
    connected = refl;
    written = refl;
    honest_sender = sender-Honest;
    honest_receiver = receiver-Honest (put_sender_end 1 2).outsock.sent;
  };
  sends = refl;
  stores = refl;
}

put_links :
    Each (PutLink source (pos 3) 1024 1024 2 3) (fragments source 1) (first_run ∷ second_run ∷ [])
unfolding fragments_from fragment div_ℤ mul_ℕ sub_ℤ xor
put_links = (put_first, (put_second, tt))

put_small : All (λ p. pos_part (p.1) < 2 ^ 31) (fragments source 1)
unfolding fragments_from fragment div_ℤ mul_ℕ sub_ℤ xor
put_small = omega arith

put_delivers_example : file_after second_first (λ _. none) 2 ≡ get_elem? source 2
put_delivers_example =
    put_delivers source (pos 3) 1024 1024 2 3 1 (first_run ∷ second_run ∷ []) second_first
      (omega arith) (omega arith) (omega arith) (omega arith) put_small put_links merged 2

abbrev get_sender_end : ℕ → ℕ → Child
get_sender_end start n = state_of (AtServer.retr_child 0 (pos 3) false (pos 1024) start n sender)

abbrev get_receiver_end : ℕ → ℕ → Child
get_receiver_end start n = state_of (
    AtClient.store_child (pos 3) false (pos 1024) 3 2 start n
      (receiver (get_sender_end start n).outsock.sent))

get_first : GetLink source 0 (pos 3) 1024 1024 2 3 (pos 0, pos 1) first_run
unfolding AtServer.retr_child AtServer.wait_for_parent AtServer.wait_calls
    AtServer.open_file_fragment persist AtServer.connection AtServer.send_header
    AtServer.retr_rounds AtServer.num_to_read send_by receive_by readmessage readmessage_by
    read_loop try_select writemessage writemessage_by write_loop AtServer.acknowledged encode_len
    decode_message le32 of_le32 htonl AtClient.store_child AtClient.close_inherited attempt
    AtClient.await_peer AtClient.take_connection AtClient.store_rounds AtClient.round_amount
    AtClient.recv_data AtClient.recv_loop write_file AtClient.acknowledge AtClient.close_stored
    ClientIo.writemessage
get_first = record {
  link = record {
    sender = sender;
    sender_end = get_sender_end 0 1;
    receiver = receiver (get_sender_end 0 1).outsock.sent;
    receiver_end = get_receiver_end 0 1;
    source_found = refl;
    nothing_sent = refl;
    nothing_written = refl;
    connected = refl;
    written = refl;
    honest_sender = sender-Honest;
    honest_receiver = receiver-Honest (get_sender_end 0 1).outsock.sent;
  };
  sends = refl;
  stores = refl;
}

get_second : GetLink source 0 (pos 3) 1024 1024 2 3 (pos 1, pos 2) second_run
unfolding AtServer.retr_child AtServer.wait_for_parent AtServer.wait_calls
    AtServer.open_file_fragment persist AtServer.connection AtServer.send_header
    AtServer.retr_rounds AtServer.num_to_read send_by receive_by readmessage readmessage_by
    read_loop try_select writemessage writemessage_by write_loop AtServer.acknowledged encode_len
    decode_message le32 of_le32 htonl AtClient.store_child AtClient.close_inherited attempt
    AtClient.await_peer AtClient.take_connection AtClient.store_rounds AtClient.round_amount
    AtClient.recv_data AtClient.recv_loop write_file AtClient.acknowledge AtClient.close_stored
    ClientIo.writemessage
get_second = record {
  link = record {
    sender = sender;
    sender_end = get_sender_end 1 2;
    receiver = receiver (get_sender_end 1 2).outsock.sent;
    receiver_end = get_receiver_end 1 2;
    source_found = refl;
    nothing_sent = refl;
    nothing_written = refl;
    connected = refl;
    written = refl;
    honest_sender = sender-Honest;
    honest_receiver = receiver-Honest (get_sender_end 1 2).outsock.sent;
  };
  sends = refl;
  stores = refl;
}

get_links :
    Each (GetLink source 0 (pos 3) 1024 1024 2 3) (fragments source 1) (first_run ∷ second_run ∷ [])
unfolding fragments_from fragment div_ℤ mul_ℕ sub_ℤ xor
get_links = (get_first, (get_second, tt))

get_delivers_example : file_after second_first (λ _. none) 2 ≡ get_elem? source 2
get_delivers_example =
    get_delivers source 0 (pos 3) 1024 1024 2 3 1 (first_run ∷ second_run ∷ []) second_first refl
      (omega arith) (omega arith) get_links merged 2
