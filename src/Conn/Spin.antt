-- ===== src/Conn/Spin.antt =====
-- The server's receive loop (nwc_connection.c) while its handler can not send.
use imooc_sock_core_tech.Prelude.{
  ℕ, zero, suc, ◌+◌, ◌≤◌, ◌≡◌, ◌∙◌, refl, false, some, List, ◌∷◌, ◌++◌, arith, length,
}
use imooc_sock_core_tech.Types.{u32, sub32, nwc_server}
use imooc_sock_core_tech.Outcome.{hang}
use imooc_sock_core_tech.Qos.{DoubleOps, QosHdr, qos_hdr_len, milisecs}
use imooc_sock_core_tech.Wire.{read_hdr}
use imooc_sock_core_tech.Loop.{EpollCtl}
use imooc_sock_core_tech.Io.{tcp, IoHandler, TcpState, tcp_handler}
use imooc_sock_core_tech.World.{
  State, Conn, RecvReply, received, load_conn, load_io, read_clock, Cmd,
}
use imooc_sock_core_tech.Transport.Api.{io_can_send}
use imooc_sock_core_tech.Transport.Receiving.{io_recv-received}
use imooc_sock_core_tech.Conn.{recv_buffer_len}
use imooc_sock_core_tech.Conn.Receive.{receive_turn, receive_loop, connection_on_recv}

-- A server's connection `c` at `nwc` whose TCP handler at `io` waits until it may send again.
pub record IsBlocked {D : Type 0} (nwc io : ℕ) (c : Conn D) (h : IoHandler) (state : TcpState)
    (s : State D) : Type 0 where
  pub conn : s.user.conns nwc ≡ some c
  pub handle : c.handle ≡ some io
  pub handler : s.user.ios io ≡ some (tcp_handler h state)
  pub blocked : h.can_send ≡ false
  pub recv : h.recv ≡ some tcp
  pub server : s.user.cfg.mode ≡ nwc_server

module _ {D : Type 0} (F : DoubleOps D) (ctl : EpollCtl) where
  module _ (nwc io recv_ts rbytes : ℕ) (bytes : List ℕ) (c : Conn D) (h : IoHandler)
      (state : TcpState) (s : State D) (pkg : QosHdr) (held : IsBlocked nwc io c h state s)
      (header : read_hdr bytes ≡ some pkg) (has_header : qos_hdr_len ≤ rbytes)
      (complete : u32 (qos_hdr_len + pkg.length) ≤ rbytes) where
    -- A turn of the loop goes on with the very bytes that it began with.
    receive_turn-blocked :
        (next : ℕ → List ℕ → Cmd D (ℕ × List ℕ))
        → receive_turn F ctl nwc recv_ts rbytes bytes next s ≡ next rbytes bytes s
    unfolding receive_turn load_conn io_can_send load_io
    receive_turn-blocked next = ground arith

    receive_loop-blocked : (k : ℕ) → receive_loop F ctl k nwc recv_ts rbytes bytes s ≡ hang
    unfolding receive_loop
    receive_loop-blocked zero = refl
    receive_loop-blocked (suc k) =
        receive_turn-blocked (receive_loop F ctl k nwc recv_ts) ∙ receive_loop-blocked k

  -- Once a received chunk, no longer than the room in the buffer, completes a package on a server's
  -- TCP connection whose handler is marked as unable to send, the handler of readable data does not
  -- end, with whatever fuel.
  pub connection_on_recv-hang :
      (fuel nwc io : ℕ) (c : Conn D) (h : IoHandler) (state : TcpState) (s : State D) (byte : ℕ)
      (chunk : List ℕ) (replies : List RecvReply) (now : ℕ × ℕ) (clock : List (ℕ × ℕ))
      (pkg : QosHdr)
      → IsBlocked nwc io c h state s
      → s.user.recvs ≡ received (byte ∷ chunk) ∷ replies
      → s.user.clock ≡ now ∷ clock
      → read_hdr (c.recv_buff ++ byte ∷ chunk) ≡ some pkg
      → qos_hdr_len ≤ length (byte ∷ chunk) + c.rbytes
      → length (byte ∷ chunk) + c.rbytes ≤ recv_buffer_len
      → u32 (qos_hdr_len + pkg.length) ≤ length (byte ∷ chunk) + c.rbytes
      → connection_on_recv F ctl fuel nwc s ≡ hang
  unfolding connection_on_recv load_conn read_clock
  connection_on_recv-hang fuel nwc io c h state s byte chunk replies now clock pkg held ready ticks
        header enough room complete =
      let s' : State D = record s { user = record (s.user) { recvs = replies; clock = clock } } in
      let held' : IsBlocked nwc io c h state s' = record {
        conn = held.conn;
        handle = held.handle;
        handler = held.handler;
        blocked = held.blocked;
        recv = held.recv;
        server = held.server;
      } in
      ground (
        arith,
        io_recv-received io h state s (byte ∷ chunk) replies (sub32 recv_buffer_len c.rbytes)
            held.handler held.recv ready (omega arith),
        receive_loop-blocked nwc io (milisecs now.0 now.1) (length (byte ∷ chunk) + c.rbytes)
            (c.recv_buff ++ byte ∷ chunk) c h state s' pkg held' header enough complete fuel,
      )
