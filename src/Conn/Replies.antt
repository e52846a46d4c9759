-- ===== src/Conn/Replies.antt =====
-- One turn of the server's receive loop (nwc_connection.c) and its acknowledgement.
use imooc_sock_core_tech.Prelude.{
  ℕ, ◌≡◌, refl, true, false, some, List, [], ◌∷◌, ◌++◌, arith, length, take, length-append,
}
use imooc_sock_core_tech.Prelude.Int.{ℤ, pos}
use imooc_sock_core_tech.Types.{sub32, nwc_server}
use imooc_sock_core_tech.Outcome.{done}
use imooc_sock_core_tech.Qos.{DoubleOps, QosHdr, milisecs, pong, create_ack_package}
use imooc_sock_core_tech.Wire.{encode}
use imooc_sock_core_tech.Wire.Roundtrip.{read_hdr-encode, length-encode, drop-encode}
use imooc_sock_core_tech.Loop.{EpollCtl}
use imooc_sock_core_tech.Io.{tcp, IoHandler, TcpState, tcp_handler}
use imooc_sock_core_tech.World.{State, Conn, SendReply, sent, load_conn, load_io, Cmd}
use imooc_sock_core_tech.Transport.Receiving.{read_clock-at}
use imooc_sock_core_tech.Transport.Api.{io_send, io_can_send}
use imooc_sock_core_tech.Transport.Tcp.{tcp_send}
use imooc_sock_core_tech.Transport.Syscalls
use imooc_sock_core_tech.Transport.Syscalls.{sys_send}
use imooc_sock_core_tech.Conn.Receive.{answer, receive_turn}
use imooc_sock_core_tech.Conn.Stream.{IsWhole}

-- The acknowledgement of a package that was received at `recv_ts`, at a reading of the clock.
abbrev pub reply_to : (recv_ts : ℕ) → QosHdr → ℕ × ℕ → QosHdr
reply_to recv_ts p now = record {
  timestamp = milisecs now.0 now.1;
  ack_timestamp = p.timestamp;
  recv_delay = sub32 (milisecs now.0 now.1) recv_ts;
  length = 4;
  payload = pong;
}

-- The bytes that go out at a descriptor in answer to packages.
abbrev pub replies : ℤ → (recv_ts : ℕ) → List QosHdr → List (ℕ × ℕ) → List (ℤ × List ℕ)
replies fd recv_ts [] ticks = []
replies fd recv_ts (p ∷ ps) [] = []
replies fd recv_ts (p ∷ ps) (now ∷ ticks) =
    (fd, encode (reply_to recv_ts p now)) ∷ replies fd recv_ts ps ticks

-- Sends that each accept an acknowledgement, 20 bytes, and then these.
abbrev pub whole_sends : List QosHdr → List SendReply → List SendReply
whole_sends [] later = later
whole_sends (p ∷ ps) later = sent 20 ∷ whole_sends ps later

-- The connection at `nwc` belongs to a server and can send over the TCP handler at `io`.
pub record IsAnswering {D : Type 0} (nwc io : ℕ) (c : Conn D) (h : IoHandler) (state : TcpState)
    (s : State D) : Type 0 where
  pub conn : s.user.conns nwc ≡ some c
  pub handle : c.handle ≡ some io
  pub handler : s.user.ios io ≡ some (tcp_handler h state)
  pub can : h.can_send ≡ true
  pub send : h.send ≡ some tcp
  pub server : s.user.cfg.mode ≡ nwc_server

module _ {D : Type 0} (F : DoubleOps D) (ctl : EpollCtl) (nwc io recv_ts : ℕ) (c : Conn D)
    (h : IoHandler) (state : TcpState) where
  -- The state after one answer.
  abbrev pub answered : QosHdr → ℕ × ℕ → List (ℕ × ℕ) → List SendReply → State D → State D
  answered p now clock sends s = record s {
    user = record (s.user) {
      clock = clock;
      sends = sends;
      wire = s.user.wire ++ (h.fd, encode (reply_to recv_ts p now)) ∷ [];
    };
  }

  io_send-sent :
      (buffer : List ℕ) (n : ℕ) (sends : List SendReply) (s : State D)
      → s.user.ios io ≡ some (tcp_handler h state)
      → h.send ≡ some tcp
      → s.user.sends ≡ sent n ∷ sends
      → io_send io buffer s
        ≡ done (
          pos n,
          record s {
            user = record (s.user) {
              sends = sends;
              wire = s.user.wire ++ (h.fd, take n buffer) ∷ [];
            };
          },
        )
  unfolding io_send tcp_send load_io sys_send Syscalls.send_loop
  io_send-sent buffer n sends s handler slot next = ground arith

  reply_bytes :
      (p : QosHdr) (now : ℕ × ℕ)
      → take 20 (encode (reply_to recv_ts p now)) ≡ encode (reply_to recv_ts p now)
  unfolding encode
  reply_bytes p now = refl

  answer-sent :
      (p : QosHdr) (payload : List ℕ) (now : ℕ × ℕ) (clock : List (ℕ × ℕ)) (sends : List SendReply)
      (s : State D)
      → IsAnswering nwc io c h state s
      → s.user.clock ≡ now ∷ clock
      → s.user.sends ≡ sent 20 ∷ sends
      → answer F ctl nwc io recv_ts (record p { payload = payload }) s
        ≡ done (false, answered p now clock sends s)
  unfolding answer create_ack_package
  answer-sent p payload now clock sends s i ticks next =
      let s' : State D = record s { user = record (s.user) { clock = clock } } in
      ground (
        arith,
        read_clock-at now clock s ticks,
        io_send-sent (encode (reply_to recv_ts p now)) 20 sends s' i.handler i.send next,
        reply_bytes p now,
      )

  pub receive_turn-server :
      (p : QosHdr) (rest : List ℕ) (now : ℕ × ℕ) (clock : List (ℕ × ℕ)) (sends : List SendReply)
      (s : State D) (next : ℕ → List ℕ → Cmd D (ℕ × List ℕ))
      → IsWhole p
      → IsAnswering nwc io c h state s
      → s.user.clock ≡ now ∷ clock
      → s.user.sends ≡ sent 20 ∷ sends
      → receive_turn F ctl nwc recv_ts (length (encode p ++ rest)) (encode p ++ rest) next s
        ≡ next (length rest) rest (answered p now clock sends s)
  unfolding receive_turn load_conn io_can_send load_io
  receive_turn-server p rest now clock sends s next whole i ticks ready = ground (
    arith,
    whole,
    i.conn,
    i.handle,
    i.handler,
    i.can,
    i.server,
    read_hdr-encode p rest whole.fits,
    length-encode p rest,
    length-append p.payload rest,
    drop-encode p rest p.length whole.payload,
    answer-sent p (p.payload ++ rest) now clock sends s i ticks ready,
  )

  pub answered-IsAnswering :
      (p : QosHdr) (now : ℕ × ℕ) (clock : List (ℕ × ℕ)) (sends : List SendReply) (s : State D)
      → IsAnswering nwc io c h state s
      → IsAnswering nwc io c h state (answered p now clock sends s)
  answered-IsAnswering p now clock sends s i = record {
    conn = i.conn;
    handle = i.handle;
    handler = i.handler;
    can = i.can;
    send = i.send;
    server = i.server;
  }
