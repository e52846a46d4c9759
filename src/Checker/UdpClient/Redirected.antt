-- ===== src/Checker/UdpClient/Redirected.antt =====
-- Where nwc_udp_client.c (04-24_UNIX异步IO机制) sends its messages.
use imooc_sock_core_tech.Prelude.{
  ℕ, ◌≡◌, ◌≢◌, refl, Bool, true, some, List, [], ◌∷◌, ◌++◌, arith, take, append_assoc,
}
use imooc_sock_core_tech.Outcome.{done}
use imooc_sock_core_tech.World.{SockAddr, SendReply, sent}
use imooc_sock_core_tech.Checker.{DatagramReply, datagram, sent_to, System, send_to}
use imooc_sock_core_tech.Checker.UdpClient.{
  UdpClientState, send_ping, receive_pong, udp_count_down, udp_client_round,
}

module _ (infinit : Bool) (slot_send_count echo_mode : ℕ) (waits : echo_mode ≢ 2) where
  -- The variables when a round with a message from `from` counts down.
  answered_by : SockAddr → List DatagramReply → UdpClientState → UdpClientState
  answered_by from rest p = record p { datagrams = rest; destaddr = some from }

  after_answer :
      (n : ℕ) (addr from : SockAddr)
      → List DatagramReply
      → List SendReply
      → System UdpClientState
      → System UdpClientState
  after_answer n addr from rest sends s = record s {
    locals = (udp_count_down infinit slot_send_count (answered_by from rest s.locals)).1;
    sends = sends;
    calls = s.calls ++ sent_to s.locals.sock_fd (take n s.locals.send_msg) addr ∷ [];
  }

  count_down-keeps :
      (p : UdpClientState) (from : SockAddr) (rest : List DatagramReply)
      → let (go, q) = udp_count_down infinit slot_send_count (answered_by from rest p) in
        (go ≡ (udp_count_down infinit slot_send_count p).0)
        × (q.sock_fd ≡ p.sock_fd)
        × (q.send_msg ≡ p.send_msg)
        × (q.destaddr ≡ some from)
        × (q.datagrams ≡ rest)
  unfolding udp_count_down answered_by
  count_down-keeps p from rest = ground arith

  round-follows :
      (n byte : ℕ) (bytes : List ℕ) (addr from : SockAddr) (rest : List DatagramReply)
      (sends : List SendReply) (s : System UdpClientState)
      → s.locals.destaddr ≡ some addr
      → s.locals.datagrams ≡ datagram (byte ∷ bytes) from ∷ rest
      → s.sends ≡ sent n ∷ sends
      → udp_client_round infinit slot_send_count echo_mode s
        ≡ done (
          (udp_count_down infinit slot_send_count (answered_by from rest s.locals)).0,
          after_answer n addr from rest sends s,
        )
  unfolding udp_client_round after_answer answered_by send_ping receive_pong send_to
  round-follows n byte bytes addr from rest sends s held arrive answers = ground arith

  -- An unconnected UDP client whose first datagram is answered from whatever address sends its next
  -- one to that address: where two datagrams with some bytes arrive, both sends succeed and the
  -- count goes on behind the first round, two rounds end, and the second sends to where the first
  -- datagram came from. The echo mode is not 2.
  pub udp_client_follows :
      (n m byte byte' : ℕ) (bytes bytes' : List ℕ) (addr from from' : SockAddr)
      (rest : List DatagramReply) (sends : List SendReply) (s : System UdpClientState)
      → s.locals.destaddr ≡ some addr
      → s.locals.datagrams ≡ datagram (byte ∷ bytes) from ∷ datagram (byte' ∷ bytes') from' ∷ rest
      → s.sends ≡ sent n ∷ sent m ∷ sends
      → (udp_count_down infinit slot_send_count s.locals).0 ≡ true
      → (t : System UdpClientState) × (u : System UdpClientState) × (go : Bool) × (udp_client_round
            infinit slot_send_count echo_mode s
          ≡ done (true, t))
        × (udp_client_round infinit slot_send_count echo_mode t ≡ done (go, u))
        × (u.calls
            ≡ s.calls
              ++ sent_to s.locals.sock_fd (take n s.locals.send_msg) addr
                ∷ sent_to s.locals.sock_fd (take m s.locals.send_msg) from
                ∷ [])
  unfolding after_answer
  udp_client_follows n m byte byte' bytes bytes' addr from from' rest sends s held arrive answers
        on =
      let rest1 = datagram (byte' ∷ bytes') from' ∷ rest in
      let (go, fd, msg, dest, grams) = count_down-keeps s.locals from rest1 in
      let t = after_answer n addr from rest1 (sent m ∷ sends) s in
      (
        t,
        after_answer m from from' rest sends t,
        (udp_count_down infinit slot_send_count (answered_by from' rest t.locals)).0,
        ground (
          arith,
          go,
          round-follows n byte bytes addr from rest1 (sent m ∷ sends) s held arrive answers,
        ),
        round-follows m byte' bytes' from from' rest sends t dest grams refl,
        ground (
          arith,
          fd,
          msg,
          append_assoc s.calls (sent_to s.locals.sock_fd (take n s.locals.send_msg) addr ∷ [])
              (sent_to s.locals.sock_fd (take m s.locals.send_msg) from ∷ []),
        ),
      )
