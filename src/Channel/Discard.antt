-- ===== src/Channel/Discard.antt =====
-- discardmessage (bbftp-server/bbftpd/bbftpd_message.c).
use bbftp.Base.{
  ℕ, zero, suc, ◌+◌, ◌-◌, ◌≤◌, ◌<◌, ◌≡◌, List, [], ◌∷◌, ◌++◌, arith, pos, length, take, drop, false,
  min,
}
use bbftp.Channel.{
  SelectAnswer, ReadAnswer, ready, given, done, InSock, read_loop, discardmessage, received,
  interrupted,
}
use bbftp.Channel.Read.{read_loop-stream, read_loop-length}

-- Where discardmessage succeeds, it has taken the `msglen` bytes of the message from the front of the
-- stream, and at most 255 more.
pub discardmessage_bounds :
    (sock : InSock) (n : ℕ)
    → (discardmessage sock (pos n)).status ≡ done
    → let r = discardmessage sock (pos n) in
      (r.buffer ++ r.sock.stream ≡ sock.stream)
      × (length r.buffer ≤ n + 255)
      × (n ≤ length r.buffer)
unfolding discardmessage
discardmessage_bounds sock n ok =
    let (upper, lower) =
      read_loop-length interrupted (λ k. 256) 255 (λ k. omega arith) false n [] sock.stream
        sock.selects sock.reads in
    (
      read_loop-stream interrupted (λ k. 256) false n [] sock.stream sock.selects sock.reads,
      omega arith,
      omega (arith, lower ok),
    )

-- The bytes past the message that are there in the same segment are lost: with the descriptor
-- ready and the kernel giving all it has, a message of 1 to 256 bytes takes whatever else is among
-- the next 256 bytes of the stream.
pub discardmessage_overreads :
    (stream : List ℕ) (n : ℕ) (selects : List SelectAnswer) (reads : List ReadAnswer)
    → 0 < n
    → n ≤ 256
    → 256 ≤ length stream
    → discardmessage
        (record { stream = stream; selects = ready ∷ selects; reads = given 256 ∷ reads })
        (pos n)
      ≡ received (take 256 stream) (drop 256 stream) selects reads done
unfolding discardmessage read_loop
discardmessage_overreads stream zero selects reads p q h = absurd (omega arith)
discardmessage_overreads stream (suc n) selects reads p q h =
    let all : min 256 (min 256 (length stream)) ≡ 256 = omega arith in
    let over : suc n - 256 ≡ 0 = omega arith in ground (arith, all, over)
