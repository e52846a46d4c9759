-- ===== src/Transport/Syscalls.antt =====
-- The retry loops round `recv`, `send`, `recvfrom` and `sendto` in nwc_tcp_handler.c and
-- nwc_udp_handler.c, over the answers of the system.
use Prim.Native.Nat.{ℕ}
use imooc_sock_core_tech.Prelude.{
  Bool, true, false, Option, List, [], ◌∷◌, ◌++◌, ◌==◌, if◌then◌else◌, length, take,
}
use imooc_sock_core_tech.Prelude.Int.{ℤ, pos, negsuc, neg}
use imooc_sock_core_tech.Types.{eintr, eagain, econnrefused}
use imooc_sock_core_tech.Outcome.{Outcome, done, hang}
use imooc_sock_core_tech.World.{
  SockAddr, RecvReply, received, recv_failed, SendReply, sent, send_failed, Cmd,
}

-- What the code makes of an error of `recv`; `tcp` looks at `ECONNREFUSED` too.
abbrev pub recv_error : (tcp : Bool) (errno : ℕ) → ℤ
recv_error tcp errno =
    if errno == eagain
    then neg eagain
    else if errno == econnrefused
    then (if tcp then neg econnrefused else negsuc 0)
    else negsuc 0

-- The system fills at most the `buflen` bytes of the buffer. Without an answer the loop waits.
unfoldable pub recv_loop :
    (tcp : Bool) (buflen : ℕ) → List RecvReply → Outcome ((ℤ × List ℕ) × List RecvReply)
recv_loop tcp buflen [] = hang
recv_loop tcp buflen (received bytes ∷ rest) =
    let filled = take buflen bytes in done ((pos (length filled), filled), rest)
recv_loop tcp buflen (recv_failed errno ∷ rest) =
    if errno == eintr then recv_loop tcp buflen rest else done ((recv_error tcp errno, []), rest)

-- `rc`, and whether the system would have blocked.
unfoldable pub send_loop : List SendReply → Outcome ((ℤ × Bool) × List SendReply)
send_loop [] = hang
send_loop (sent n ∷ rest) = done ((pos n, false), rest)
send_loop (send_failed errno ∷ rest) =
    if errno == eintr
    then send_loop rest
    else done (if errno == eagain then (neg eagain, true) else (negsuc 0, false), rest)

abbrev pub accepted_bytes : ℤ → List ℕ → List ℕ
accepted_bytes (pos n) buffer = take n buffer
accepted_bytes (negsuc n) buffer = []

module _ {D : Type 0} where
  unfoldable pub sys_recv : (tcp : Bool) (buflen : ℕ) → Cmd D (ℤ × List ℕ)
  unfolding recv_loop
  sys_recv tcp buflen s = elim (recv_loop tcp buflen s.user.recvs) [
    | done (r, rest) ↦ done (r, record s { user = record (s.user) { recvs = rest } })
    | _ ↦ hang
  ]

  unfoldable pub sys_send : (fd : ℤ) (buffer : List ℕ) → Cmd D (ℤ × Bool)
  unfolding send_loop
  sys_send fd buffer s = elim (send_loop s.user.sends) [
    | done (r, rest) ↦ done (
      r,
      record s {
        user = record (s.user) {
          sends = rest;
          wire = s.user.wire ++ (fd, accepted_bytes r.0 buffer) ∷ [];
        };
      },
    )
    | _ ↦ hang
  ]

  -- `sendto`, in the same loop; the datagram goes to `toaddr`.
  unfoldable pub sys_sendto :
      (fd : ℤ) (buffer : List ℕ) (toaddr : Option SockAddr) (toaddrlen : ℕ) → Cmd D (ℤ × Bool)
  unfolding send_loop
  sys_sendto fd buffer toaddr toaddrlen s = elim (send_loop s.user.sends) [
    | done (r, rest) ↦ done (
      r,
      record s {
        user = record (s.user) {
          sends = rest;
          sent_datagrams =
              s.user.sent_datagrams ++ (fd, accepted_bytes r.0 buffer, toaddr, toaddrlen) ∷ [];
        };
      },
    )
    | _ ↦ hang
  ]
