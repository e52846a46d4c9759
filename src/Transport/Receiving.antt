-- ===== src/Transport/Receiving.antt =====
-- What `nwc_io_recv` does on a TCP handler, and how the retry loops treat interruptions.
use imooc_sock_core_tech.Prelude.{
  ℕ, zero, suc, ◌≤◌, take-all, ◌≡◌, refl, Bool, some, List, ◌∷◌, arith, length,
}
use imooc_sock_core_tech.Prelude.Int.{pos}
use imooc_sock_core_tech.Types.{eintr}
use imooc_sock_core_tech.Outcome.{done}
use imooc_sock_core_tech.Qos.{milisecs}
use imooc_sock_core_tech.Io.{tcp, IoHandler, TcpState, tcp_handler}
use imooc_sock_core_tech.World.{
  State, RecvReply, received, recv_failed, SendReply, send_failed, load_io, read_clock,
}
use imooc_sock_core_tech.Transport.Api.{io_recv}
use imooc_sock_core_tech.Transport.Tcp.{tcp_recv}
use imooc_sock_core_tech.Transport.Syscalls.{sys_recv, recv_loop, send_loop}

pub io_recv-received :
    {D : Type 0} (io : ℕ) (h : IoHandler) (state : TcpState) (s : State D) (chunk : List ℕ)
    (replies : List RecvReply) (buflen : ℕ)
    → s.user.ios io ≡ some (tcp_handler h state)
    → h.recv ≡ some tcp
    → s.user.recvs ≡ received chunk ∷ replies
    → length chunk ≤ buflen
    → io_recv io buflen s
      ≡ done ((pos (length chunk), chunk), record s { user = record (s.user) { recvs = replies } })
unfolding io_recv tcp_recv load_io sys_recv
io_recv-received io h state s chunk replies buflen handler slot ready room =
    ground (arith, take-all buflen chunk room)

pub read_clock-at :
    {D : Type 0} (now : ℕ × ℕ) (clock : List (ℕ × ℕ)) (s : State D)
    → s.user.clock ≡ now ∷ clock
    → read_clock s
      ≡ done (milisecs now.0 now.1, record s { user = record (s.user) { clock = clock } })
unfolding read_clock
read_clock-at now clock s ticks = ground arith

abbrev pub interrupted : ℕ → List RecvReply → List RecvReply
interrupted zero replies = replies
interrupted (suc n) replies = recv_failed eintr ∷ interrupted n replies

abbrev pub send_interrupted : ℕ → List SendReply → List SendReply
send_interrupted zero replies = replies
send_interrupted (suc n) replies = send_failed eintr ∷ send_interrupted n replies

recv_loop-interrupted :
    (on_tcp : Bool) (buflen n : ℕ) (replies : List RecvReply)
    → recv_loop on_tcp buflen (interrupted n replies) ≡ recv_loop on_tcp buflen replies
unfolding recv_loop
recv_loop-interrupted on_tcp buflen zero replies = refl
recv_loop-interrupted on_tcp buflen (suc n) replies = recv_loop-interrupted on_tcp buflen n replies

send_loop-interrupted :
    (n : ℕ) (replies : List SendReply) → send_loop (send_interrupted n replies) ≡ send_loop replies
unfolding send_loop
send_loop-interrupted zero replies = refl
send_loop-interrupted (suc n) replies = send_loop-interrupted n replies

-- The receive loops (TCP's and UDP's) and the send loop skip any number of interruptions: the
-- result, and the answers left for later calls, are those without them.
pub interruptions_are_skipped :
    (on_tcp : Bool) (buflen n m : ℕ) (replies : List RecvReply) (answers : List SendReply)
    → (recv_loop on_tcp buflen (interrupted n replies) ≡ recv_loop on_tcp buflen replies)
      × (send_loop (send_interrupted m answers) ≡ send_loop answers)
interruptions_are_skipped on_tcp buflen n m replies answers =
    (recv_loop-interrupted on_tcp buflen n replies, send_loop-interrupted m answers)
