-- ===== src/Conn/Answering.antt =====
-- The server's receive loop (nwc_connection.c) over whole packages.
use imooc_sock_core_tech.Prelude.{
  ℕ, zero, suc, ◌+◌, ◌<◌, ◌≤◌, ◌≡◌, ◌∙◌, sym, ap, refl, some, List, [], ◌∷◌, ◌++◌, arith, length,
  length-append, append-nil, append_assoc,
}
use imooc_sock_core_tech.Prelude.Int.{pos}
use imooc_sock_core_tech.Types.{sub32}
use imooc_sock_core_tech.Outcome.{done}
use imooc_sock_core_tech.Qos.{DoubleOps, QosHdr, milisecs}
use imooc_sock_core_tech.Wire.{encode}
use imooc_sock_core_tech.Loop.{EpollCtl}
use imooc_sock_core_tech.Io.{tcp, IoHandler, TcpState}
use imooc_sock_core_tech.World.{State, Conn, RecvReply, received, SendReply, load_conn}
use imooc_sock_core_tech.Transport.Receiving.{io_recv-received, read_clock-at}
use imooc_sock_core_tech.Conn.{recv_buffer_len}
use imooc_sock_core_tech.Conn.Receive.{receive_loop, connection_on_recv}
use imooc_sock_core_tech.Conn.Stream.{
  AllWhole, IsPartial, stream, receive_turn-partial, keep_rest-tail, stored,
}
use imooc_sock_core_tech.Conn.Replies.{
  IsAnswering, reply_to, replies, whole_sends, answered, receive_turn-server, answered-IsAnswering,
}

module _ {D : Type 0} (F : DoubleOps D) (ctl : EpollCtl) (nwc io recv_ts : ℕ) (c : Conn D)
    (h : IoHandler) (state : TcpState) where
  receive_loop-replies :
      (k : ℕ) (ps : List QosHdr) (tail : List ℕ) (ticks clock : List (ℕ × ℕ))
      (later : List SendReply) (s : State D)
      → AllWhole ps
      → IsPartial tail
      → IsAnswering nwc io c h state s
      → length ticks ≡ length ps
      → s.user.clock ≡ ticks ++ clock
      → s.user.sends ≡ whole_sends ps later
      → length ps < k
      → (t : State D) × (receive_loop F ctl k nwc recv_ts
            (length (stream ps tail))
            (stream ps tail)
            s
          ≡ done ((length tail, tail), t))
        × (t.user.wire ≡ s.user.wire ++ replies h.fd recv_ts ps ticks)
        × (t.user.conns nwc ≡ some c)
  unfolding receive_loop
  receive_loop-replies zero ps tail ticks clock later s whole partial i same tick ready fuel =
      absurd (omega arith)
  receive_loop-replies (suc k) [] tail ticks clock later s whole partial i same tick ready fuel = (
    s,
    receive_turn-partial F ctl nwc recv_ts tail s (receive_loop F ctl k nwc recv_ts) partial,
    sym (append-nil s.user.wire),
    i.conn,
  )
  receive_loop-replies (suc k) (p ∷ ps) tail [] clock later s whole partial i same tick ready fuel =
      absurd (omega arith)
  receive_loop-replies (suc k) (p ∷ ps) tail (now ∷ ticks) clock later s whole partial i same tick
        ready fuel =
      let u : State D =
        answered F ctl nwc io recv_ts c h state p now (ticks ++ clock) (whole_sends ps later) s in
      let (t, looped, wire, conn) =
        receive_loop-replies k ps tail ticks clock later u whole.1 partial
          (answered-IsAnswering F ctl nwc io recv_ts c h state p now (ticks ++ clock)
            (whole_sends ps later) s i)
          (omega arith) (refl) (refl) (omega arith) in
      (
        t,
        receive_turn-server F ctl nwc io recv_ts c h state p (stream ps tail) now (ticks ++ clock)
              (whole_sends ps later) s (receive_loop F ctl k nwc recv_ts) whole.0 i tick ready
            ∙ looped,
        wire
            ∙ append_assoc s.user.wire ((h.fd, encode (reply_to recv_ts p now)) ∷ [])
                (replies h.fd recv_ts ps ticks),
        conn,
      )

module _ {D : Type 0} (F : DoubleOps D) (ctl : EpollCtl) where
  -- On a server's TCP connection whose handler can send, a received chunk of bytes, no longer than
  -- the room in the buffer, that with the bytes kept from before makes up whole packages `ps` and a
  -- beginning `tail` of a further package is answered package by package: where every send accepts
  -- an acknowledgement's 20 bytes and the clock can be read once for each, the handler returns 0,
  -- exactly the acknowledgements of the packages go out, in order, each with the package's
  -- timestamp and the delay since the reception, and `tail` is what is kept. Fuel for one turn more
  -- than there are packages is enough.
  pub connection_on_recv-replies :
      (fuel nwc io : ℕ) (c : Conn D) (h : IoHandler) (state : TcpState) (s : State D) (byte : ℕ)
      (chunk : List ℕ) (later : List RecvReply) (now : ℕ × ℕ) (ticks clock : List (ℕ × ℕ))
      (ps : List QosHdr) (tail : List ℕ) (sends : List SendReply)
      → IsAnswering nwc io c h state s
      → h.recv ≡ some tcp
      → s.user.recvs ≡ received (byte ∷ chunk) ∷ later
      → s.user.clock ≡ now ∷ (ticks ++ clock)
      → s.user.sends ≡ whole_sends ps sends
      → length ticks ≡ length ps
      → c.rbytes ≡ length c.recv_buff
      → length (byte ∷ chunk) + c.rbytes ≤ recv_buffer_len
      → c.recv_buff ++ byte ∷ chunk ≡ stream ps tail
      → AllWhole ps
      → IsPartial tail
      → length ps < fuel
      → (t : State D) × (connection_on_recv F ctl fuel nwc s ≡ done (pos 0, t))
        × (t.user.wire ≡ s.user.wire ++ replies h.fd (milisecs now.0 now.1) ps ticks)
        × (t.user.conns nwc ≡ some (record c { rbytes = length tail; recv_buff = tail }))
  unfolding connection_on_recv load_conn
  connection_on_recv-replies fuel nwc io c h state s byte chunk later now ticks clock ps tail sends
        i slot ready tick next same count room split whole partial enough =
      let s1 : State D = record s { user = record (s.user) { recvs = later } } in
      let s' : State D = record s {
        user = record (s.user) { recvs = later; clock = ticks ++ clock };
      } in
      let ts = milisecs now.0 now.1 in
      let i' : IsAnswering nwc io c h state s' = record {
        conn = i.conn;
        handle = i.handle;
        handler = i.handler;
        can = i.can;
        send = i.send;
        server = i.server;
      } in
      let (t, looped, wire, conn) =
        receive_loop-replies F ctl nwc io ts c h state fuel ps tail ticks clock sends s' whole
          partial i' same refl next enough in
      let size : length (byte ∷ chunk) + c.rbytes ≡ length (stream ps tail) =
        omega
          (arith, length-append c.recv_buff (byte ∷ chunk), ap (λ (b : List ℕ). length b) split) in
      (
        stored nwc (record c { rbytes = length tail; recv_buff = tail }) t,
        ground (
          arith,
          i.conn,
          i.handle,
          io_recv-received io h state s (byte ∷ chunk) later (sub32 recv_buffer_len c.rbytes)
              i.handler slot ready (omega arith),
          read_clock-at now (ticks ++ clock) s1 tick,
          looped,
          keep_rest-tail F ctl nwc tail c t conn,
          size,
        ),
        unfold stored in wire,
        unfold stored in ground arith,
      )
