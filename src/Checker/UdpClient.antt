-- ===== src/Checker/UdpClient.antt =====
-- nwc_udp_client.c of 04-24_UNIX异步IO机制. With `connect` its messages go out without an address.
pub mod Redirected
use imooc_sock_core_tech.Prelude.{
  ℕ, zero, suc, ◌+◌, ◌*◌, Bool, true, false, ◌&&◌, not, Option, none, some, List, [], ◌∷◌, ◌==◌,
  length, if◌then◌else◌,
}
use imooc_sock_core_tech.Prelude.Int.{ℤ, pos, negsuc, nonpositive}
use imooc_sock_core_tech.Outcome.{Outcome, done, fault, hang}
use imooc_sock_core_tech.Types.{sub32, u32}
use imooc_sock_core_tech.World.{SockAddr, SendReply, sent, send_failed}
use imooc_sock_core_tech.Checker.{
  closed, System, Cmd, pure, ◌>>=◌, ◌>>◌, get, put, note_call, DatagramReply, datagram,
  recvfrom_failed, next_socket, next_ok, send_on, send_to,
}
use imooc_sock_core_tech.Checker.Buffers.{ClientArgs, alloc_buffer, positive_or}

-- The variables of `nwc_udp_client` that last; `destaddr` is `none` for NULL. `naps` counts the calls
-- of `usleep`, and `datagrams` are the answers of `recvfrom` to come.
pub record UdpClientState : Type 0 where
  pub sock_fd : ℕ
  pub destaddr : Option SockAddr
  pub send_msg : List ℕ
  pub loop_count : ℕ
  pub cur_slot_sent : ℕ
  pub naps : ℕ
  pub datagrams : List DatagramReply

unfoldable pub send_ping : Cmd UdpClientState SendReply
unfolding send_to send_on
send_ping = get >>= λ p. elim (p.destaddr) [
  | none ↦ send_on (some p.sock_fd) p.send_msg
  | some addr ↦ send_to p.sock_fd p.send_msg addr
]

abbrev pub was_sent : SendReply → Bool
was_sent (sent n) = true
was_sent (send_failed errno) = false

-- `recvfrom` writes the sender's address to `destaddr`, unless that is NULL.
abbrev pub redirect : Option SockAddr → (from : SockAddr) → Option SockAddr
redirect none from = none
redirect (some addr) from = some from

-- `false` is `break`.
unfoldable pub receive_pong : Cmd UdpClientState Bool
receive_pong s =
    let p = s.locals in
    elim (p.datagrams) [
      | [] ↦ hang
      | recvfrom_failed errno ∷ rest ↦
          done (false, record s { locals = record p { datagrams = rest } })
      | datagram bytes from ∷ rest ↦ done (
        not (length bytes == 0),
        record s { locals = record p { datagrams = rest; destaddr = redirect p.destaddr from } },
      )
    ]

module _ (infinit : Bool) (slot_send_count : ℕ) where
  -- The end of a round: `false` is `break`.
  unfoldable pub udp_count_down : UdpClientState → Bool × UdpClientState
  udp_count_down p =
      let left = if infinit then p.loop_count else sub32 p.loop_count 1 in
      if not infinit && (left == 0)
      then (false, record p { loop_count = left })
      else if sub32 p.cur_slot_sent 1 == 0
      then (
        true,
        record p { loop_count = left; cur_slot_sent = slot_send_count; naps = p.naps + 1 },
      )
      else (true, record p { loop_count = left; cur_slot_sent = sub32 p.cur_slot_sent 1 })

module _ (infinit : Bool) (slot_send_count echo_mode : ℕ) where
  -- One round of `while(1)`: whether there is a next one.
  unfoldable pub udp_client_round : Cmd UdpClientState Bool
  unfolding send_ping udp_count_down receive_pong
  udp_client_round = send_ping >>= λ reply.
      if was_sent reply
      then ((if echo_mode == 2 then pure true else receive_pong) >>= λ ok.
          if ok
          then (get >>= λ p.
              put (udp_count_down infinit slot_send_count p).1
              >> pure (udp_count_down infinit slot_send_count p).0)
          else pure false)
      else pure false

  unfoldable pub udp_client_loop : (fuel : ℕ) → Cmd UdpClientState (Unit {0})
  unfolding udp_client_round
  udp_client_loop zero s = hang
  udp_client_loop (suc k) s =
      let rest = udp_client_loop k in (udp_client_round >>= λ go. if go then rest else pure tt) s

module _ (junk : List ℕ) (fuel : ℕ) (args : ClientArgs) (echo_mode : ℕ) (serveraddr : SockAddr)
    (datagrams : List DatagramReply) where
  -- From the message on.
  unfoldable pub udp_client_from : (fd : ℕ) (destaddr : Option SockAddr) → Cmd UdpClientState ℤ
  unfolding alloc_buffer udp_client_loop
  udp_client_from fd destaddr s = elim (alloc_buffer junk (positive_or 5 args.message_size)) [
    | none ↦ fault
    | some send_msg ↦
        (do
          put (record {
            sock_fd = fd;
            destaddr = destaddr;
            send_msg = send_msg;
            loop_count = u32 (positive_or 0 args.count * positive_or 1 args.sent_pkgs);
            cur_slot_sent = positive_or 1 args.sent_pkgs;
            naps = 0;
            datagrams = datagrams;
          })
          udp_client_loop (nonpositive args.count) (positive_or 1 args.sent_pkgs) echo_mode fuel
          (if args.no_close then pure tt else note_call (closed fd))
          pure (pos 0))
          s
  ]

  unfoldable pub run_nwc_udp_client : (is_udp_connect : Bool) → Cmd UdpClientState ℤ
  unfolding udp_client_from next_socket next_ok
  run_nwc_udp_client is_udp_connect = next_socket >>= λ made. elim made [
    | none ↦ pure (negsuc 0)
    | some fd ↦
        if is_udp_connect
        then (next_ok >>= λ connect_ok.
            if connect_ok
            then udp_client_from fd none
            else (note_call (closed fd) >> pure (negsuc 0)))
        else udp_client_from fd (some serveraddr)
  ]
