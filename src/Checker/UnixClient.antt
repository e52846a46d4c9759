-- ===== src/Checker/UnixClient.antt =====
-- unix_stream_client.c of 04-24_UNIX异步IO机制: pings over a stream socket of the UNIX domain.
-- `int` counters are their bit patterns.
use imooc_sock_core_tech.Prelude.{
  ℕ, zero, suc, ◌+◌, ◌*◌, ◌%◌, ◌^◌, Bool, true, false, not, ◌&&◌, Option, none, some, List, [], ◌∷◌,
  ◌==◌, length, if◌then◌else◌,
}
use imooc_sock_core_tech.Prelude.Int.{ℤ, pos, negsuc, nonpositive}
use imooc_sock_core_tech.Outcome.{done, fault, hang}
use imooc_sock_core_tech.Types.{sub32, u32}
use imooc_sock_core_tech.World.{RecvReply, received, recv_failed, SendReply, sent, send_failed}
use imooc_sock_core_tech.Checker.Buffers.{ClientArgs, alloc_buffer, positive_or}
use imooc_sock_core_tech.Checker.{
  closed, Cmd, pure, ◌>>=◌, ◌>>◌, get, put, note_call, next_ok, next_recv, next_socket, send_on,
}
pub mod Ending

-- The variables of `unix_stream_client`; `naps` counts the calls of `usleep`.
pub record UnixClientState : Type 0 where
  pub sock_fd : ℕ
  pub send_msg : List ℕ
  pub loop_count : ℕ
  pub cur_slot_sent : ℕ
  pub total_send_size : ℕ
  pub naps : ℕ

-- `total_send_size += send_msg_len`
abbrev pub add_message : UnixClientState → UnixClientState
add_message p = record p { total_send_size = (p.total_send_size + length p.send_msg) % 2 ^ 64 }

-- `send` and what follows it: `false` is `break`.
unfoldable pub unix_ping : Cmd UnixClientState Bool
unfolding send_on
unix_ping = get >>= λ p. send_on (some p.sock_fd) p.send_msg >>= λ reply. elim reply [
  | sent n ↦ put (add_message p) >> pure true
  | send_failed errno ↦ pure false
]

-- `rc <= 0` after `recv` is `break`.
unfoldable pub got_pong : RecvReply → Bool
got_pong (received []) = false
got_pong (received (b ∷ bs)) = true
got_pong (recv_failed errno) = false

unfoldable pub unix_pong : Cmd UnixClientState Bool
unfolding got_pong next_recv
unix_pong = next_recv >>= λ reply. pure (got_pong reply)

module _ (infinit : Bool) (slot_send_count : ℕ) where
  -- The end of a round: `false` is `break`.
  unfoldable pub unix_count_down : UnixClientState → Bool × UnixClientState
  unix_count_down p =
      let left = if infinit then p.loop_count else sub32 p.loop_count 1 in
      if not infinit && (left == 0)
      then (false, record p { loop_count = left })
      else if sub32 p.cur_slot_sent 1 == 0
      then (
        true,
        record p { loop_count = left; cur_slot_sent = slot_send_count; naps = p.naps + 1 },
      )
      else (true, record p { loop_count = left; cur_slot_sent = sub32 p.cur_slot_sent 1 })

  unfoldable pub unix_counted : Cmd UnixClientState Bool
  unfolding unix_count_down
  unix_counted = get >>= λ p. let next = unix_count_down p in put next.1 >> pure next.0

  unfoldable pub unix_client_round : Cmd UnixClientState Bool
  unfolding unix_ping unix_pong unix_counted
  unix_client_round = unix_ping >>= λ ok.
      if ok then (unix_pong >>= λ got. if got then unix_counted else pure false) else pure false

  unfoldable pub unix_client_loop : (fuel : ℕ) → Cmd UnixClientState (Unit {0})
  unfolding unix_client_round
  unix_client_loop zero s = hang
  unix_client_loop (suc k) s =
      let rest = unix_client_loop k in (unix_client_round >>= λ go. if go then rest else pure tt) s

-- The variables before the loop.
abbrev pub unix_variables : (args : ClientArgs) (fd : ℕ) (send_msg : List ℕ) → UnixClientState
unix_variables args fd send_msg =
    let slot_send_count = positive_or 1 args.sent_pkgs in
    record {
      sock_fd = fd;
      send_msg = send_msg;
      loop_count = u32 (positive_or 0 args.count * slot_send_count);
      cur_slot_sent = slot_send_count;
      total_send_size = 0;
      naps = 0;
    }

module _ (junk : List ℕ) (fuel : ℕ) (args : ClientArgs) where
  -- From the connection on.
  unfoldable pub unix_connected : (fd : ℕ) → Cmd UnixClientState ℤ
  unfolding alloc_buffer unix_client_loop
  unix_connected fd s = elim (alloc_buffer junk (positive_or 5 args.message_size)) [
    | none ↦ fault
    | some send_msg ↦
        (do
          put (unix_variables args fd send_msg)
          unix_client_loop (nonpositive args.count) (positive_or 1 args.sent_pkgs) fuel
          note_call (closed fd)
          pure (pos 0))
          s
  ]

  -- `unix_stream_client`; `ip` is `na->ip`, which `strncpy` reads.
  unfoldable pub run_unix_stream_client : (ip : Option (List ℕ)) → Cmd UnixClientState ℤ
  unfolding unix_connected next_socket next_ok
  run_unix_stream_client ip = next_socket >>= λ made. elim made [
    | none ↦ pure (negsuc 0)
    | some fd ↦ elim ip [
      | none ↦ λ s. fault
      | some path ↦ next_ok >>= λ connect_ok.
          if connect_ok then unix_connected fd else (note_call (closed fd) >> pure (negsuc 0))
    ]
  ]
