-- ===== src/Checker/Udp.antt =====
-- nwc_udp_server.c of 04-24_UNIX异步IO机制. Its list of connections, which nwc_connection.c keeps, holds
-- nothing but their addresses.
use imooc_sock_core_tech.Prelude.{
  ℕ, zero, suc, ◌≡◌, ◌≢◌, refl, Bool, true, false, not, Option, none, some, List, [], ◌∷◌, ◌++◌,
  arith, append_assoc, append-nil, ◌==◌, if◌then◌else◌,
}
use imooc_sock_core_tech.Outcome.{Outcome, done, hang}
use imooc_sock_core_tech.World.{SockAddr, SendReply, sent, send_failed}
use imooc_sock_core_tech.Checker.{
  pong_message, DatagramReply, datagram, recvfrom_failed, Call, sent_to, System, Cmd, pure, ◌>>=◌,
  ◌>>◌, get, put, send_to, note_call, bound_to, closed, next_socket, next_ok,
}
use imooc_sock_core_tech.Checker.NwcLinks.{same_address}
pub mod Answers

-- The variables of `nwc_udp_server` that last, and the answers of `recvfrom` to come.
pub record UdpState : Type 0 where
  pub sock_fd : ℕ
  pub client_addr : SockAddr
  pub nwc_hdr : List SockAddr
  pub datagrams : List DatagramReply

-- `get_nwc_connection`, and `add_nwc_tail` where it finds none.
unfoldable pub note_client : SockAddr → List SockAddr → List SockAddr
note_client addr [] = addr ∷ []
note_client addr (x ∷ xs) = if same_address x addr then x ∷ xs else x ∷ note_client addr xs

-- `false` is `continue`.
unfoldable pub udp_receive : Cmd UdpState Bool
udp_receive s =
    let p = s.locals in
    elim (p.datagrams) [
      | [] ↦ hang
      | datagram bytes from ∷ rest ↦
          done (true, record s { locals = record p { client_addr = from; datagrams = rest } })
      | recvfrom_failed errno ∷ rest ↦
          done (false, record s { locals = record p { datagrams = rest } })
    ]

unfoldable pub udp_answered : SendReply → Bool
udp_answered (sent n) = true
udp_answered (send_failed errno) = false

module _ (echo_mode : ℕ) where
  -- From the sleep on; `got` tells that the round has not been left.
  unfoldable pub udp_answer : (got : Bool) → Cmd UdpState (Unit {0})
  unfolding send_to udp_answered note_client
  udp_answer false = pure tt
  udp_answer true = get >>= λ p.
      (if echo_mode == 2
        then pure true
        else (send_to p.sock_fd pong_message p.client_addr >>= λ reply. pure (udp_answered reply)))
      >>= λ ok.
          if ok then put (record p { nwc_hdr = note_client p.client_addr p.nwc_hdr }) else pure tt

  -- One round of `while(1)`, which is never left.
  unfoldable pub udp_round : Cmd UdpState (Unit {0})
  unfolding udp_receive udp_answer
  udp_round = (if echo_mode == 3 then pure true else udp_receive) >>= udp_answer

  -- The first rounds of the loop.
  unfoldable pub udp_rounds : (n : ℕ) → Cmd UdpState (Unit {0})
  unfolding udp_round
  udp_rounds zero = pure tt
  udp_rounds (suc n) = udp_round >> udp_rounds n

-- The socket; `none` where the function returns -1.
unfoldable pub udp_socket : (port : ℕ) → Cmd UdpState (Option ℕ)
unfolding next_socket next_ok
udp_socket port = next_socket >>= λ reply. elim reply [
  | none ↦ pure none
  | some fd ↦ next_ok >>= λ bind_ok.
      if bind_ok
      then (note_call (bound_to fd port) >> pure (some fd))
      else (note_call (closed fd) >> pure none)
]

-- `nwc_udp_server` up to its first rounds: `none` is the return of -1.
unfoldable pub run_nwc_udp_server :
    (echo_mode port rounds : ℕ) (datagrams : List DatagramReply) → Cmd UdpState (Option ℕ)
unfolding udp_socket udp_rounds
run_nwc_udp_server echo_mode port rounds datagrams = udp_socket port >>= λ reply. elim reply [
  | none ↦ pure none
  | some fd ↦ do
    put (record {
      sock_fd = fd;
      client_addr = record { sin_port = 0; s_addr = 0 };
      nwc_hdr = [];
      datagrams = datagrams;
    })
    udp_rounds echo_mode rounds
    pure (some fd)
]
