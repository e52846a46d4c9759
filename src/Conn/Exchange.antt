-- ===== src/Conn/Exchange.antt =====
-- A package from a client to a server and its acknowledgement back (nwc_connection.c and
-- nwc_qos_protocol.c at both ends).
use imooc_sock_core_tech.Prelude.{
  ℕ, ◌+◌, ◌^◌, ◌<◌, ◌≡◌, ◌≢◌, ◌∙◌, ap, refl, false, some, List, [], ◌∷◌, ◌++◌, arith, length, drop,
  has, Distinct, length-drop, append-nil, ◌==◌, ◌%◌, sym,
}
use imooc_sock_core_tech.Prelude.Int.{pos}
use imooc_sock_core_tech.Types.{sub32, nwc_server}
use imooc_sock_core_tech.Outcome.{done}
use imooc_sock_core_tech.Qos.{
  DoubleOps, QosHdr, Qos, qos_hdr_len, milisecs, process_package, create_package,
  create_ack_package,
}
use imooc_sock_core_tech.Qos.Ack.{addrs, timestamps}
use imooc_sock_core_tech.Qos.Roundtrip.{sent_at, acknowledged_package_leaves}
use imooc_sock_core_tech.Wire.{encode}
use imooc_sock_core_tech.Loop.{EpollCtl}
use imooc_sock_core_tech.Io.{tcp, IoHandler, TcpState, tcp_handler}
use imooc_sock_core_tech.World.{State, Conn, received, sent, RecvReply, SendReply}
use imooc_sock_core_tech.Conn.Send.{package_len}
use imooc_sock_core_tech.Conn.Receive.{connection_on_recv}
use imooc_sock_core_tech.Conn.Stream.{IsWhole, short, stream, connection_on_recv-stream}
use imooc_sock_core_tech.Conn.Replies.{IsAnswering, reply_to}
use imooc_sock_core_tech.Conn.Answering.{connection_on_recv-replies}

-- A client's connection over TCP that has kept no bytes.
pub record IsWaiting {D : Type 0} (nwc io : ℕ) (c : Conn D) (h : IoHandler) (state : TcpState)
    (s : State D) : Type 0 where
  pub conn : s.user.conns nwc ≡ some c
  pub handle : c.handle ≡ some io
  pub handler : s.user.ios io ≡ some (tcp_handler h state)
  pub recv : h.recv ≡ some tcp
  pub client : (s.user.cfg.mode == nwc_server) ≡ false
  pub kept : c.recv_buff ≡ []
  pub count : c.rbytes ≡ 0

reply_to-IsWhole :
    (recv_ts : ℕ) (p : QosHdr) (now : ℕ × ℕ)
    → p.timestamp < 2 ^ 32
    → IsWhole (reply_to recv_ts p now)
unfolding milisecs
reply_to-IsWhole recv_ts p now fits = record {
  fits = record {
    timestamp = omega arith;
    ack_timestamp = fits;
    recv_delay = omega arith;
    length = omega arith;
  };
  payload = refl;
  size = omega arith;
}

abbrev first_byte : QosHdr → ℕ
first_byte p = p.timestamp % 256

encode-first_byte : (p : QosHdr) → encode p ≡ first_byte p ∷ drop 1 (encode p)
unfolding encode
encode-first_byte p = refl

encode-size :
    (p : QosHdr) → length (first_byte p ∷ drop 1 (encode p)) ≡ qos_hdr_len + length p.payload
unfolding encode
encode-size p = omega arith

whole_stream :
    (buff : List ℕ) (p : QosHdr)
    → buff ≡ []
    → buff ++ first_byte p ∷ drop 1 (encode p) ≡ stream (p ∷ []) []
whole_stream buff p kept = rw kept (rw (← encode-first_byte p) (sym (append-nil (encode p))))

module _ {D : Type 0} (F : DoubleOps D) where
  -- The package that the client makes, stamped.
  abbrev pub stamped : (addr ts : ℕ) (junk : List ℕ) → Qos D → QosHdr
  stamped addr ts junk q = record ((create_package F addr 0 junk package_len q).0) {
    timestamp = ts;
  }

  stamped-IsWhole :
      (addr ts : ℕ) (junk : List ℕ) (q : Qos D)
      → length junk ≡ package_len
      → ts < 2 ^ 32
      → IsWhole (stamped addr ts junk q)
  unfolding create_package
  stamped-IsWhole addr ts junk q size fits = record {
    fits = record {
      timestamp = fits;
      ack_timestamp = omega arith;
      recv_delay = omega arith;
      length = omega arith;
    };
    payload = omega (arith, length-drop 5 junk);
    size = omega arith;
  }

  module _ (ctl : EpollCtl) where
    server_answers :
        (nwc io : ℕ) (c : Conn D) (h : IoHandler) (state : TcpState) (s : State D) (p : QosHdr)
        (later : List RecvReply) (now tick : ℕ × ℕ) (clock : List (ℕ × ℕ)) (sends : List SendReply)
        → IsAnswering nwc io c h state s
        → h.recv ≡ some tcp
        → c.recv_buff ≡ []
        → c.rbytes ≡ 0
        → IsWhole p
        → length p.payload ≡ package_len
        → s.user.recvs ≡ received (encode p) ∷ later
        → s.user.clock ≡ now ∷ tick ∷ clock
        → s.user.sends ≡ sent 20 ∷ sends
        → (t : State D) × (connection_on_recv F ctl 2 nwc s ≡ done (pos 0, t))
          × (t.user.wire
              ≡ s.user.wire ++ (h.fd, encode (reply_to (milisecs now.0 now.1) p tick)) ∷ [])
    server_answers nwc io c h state s p later now tick clock sends i slot kept count whole size
          recvs ticks ready =
        let (t, ran, wire, conn) =
          connection_on_recv-replies F ctl 2 nwc io c h state s (first_byte p) (drop 1 (encode p))
            later now (tick ∷ []) clock (p ∷ []) [] sends i slot
            (recvs ∙ ap (λ (b : List ℕ). received b ∷ later) (encode-first_byte p)) ticks ready refl
            (ground (arith, kept, count)) (omega (arith, encode-size p, count, size))
            (whole_stream c.recv_buff p kept) (whole, tt) (short (omega arith)) (omega arith) in
        (t, ran, wire)

    client_takes :
        (nwc io : ℕ) (c : Conn D) (h : IoHandler) (state : TcpState) (s : State D) (p : QosHdr)
        (later : List RecvReply) (now : ℕ × ℕ) (clock : List (ℕ × ℕ))
        → IsWaiting nwc io c h state s
        → IsWhole p
        → length p.payload ≡ 4
        → s.user.recvs ≡ received (encode p) ∷ later
        → s.user.clock ≡ now ∷ clock
        → (t : State D) × (connection_on_recv F ctl 2 nwc s ≡ done (pos 0, t))
          × (t.user.conns nwc
              ≡ some (record c {
                qos = process_package F p (milisecs now.0 now.1) c.qos;
                rbytes = 0;
                recv_buff = [];
              }))
    client_takes nwc io c h state s p later now clock i whole size recvs ticks =
        connection_on_recv-stream F ctl 2 nwc io c h state s (first_byte p) (drop 1 (encode p))
          later now clock (p ∷ []) [] i.conn i.handle i.handler i.recv i.client
          (recvs ∙ ap (λ (b : List ℕ). received b ∷ later) (encode-first_byte p)) ticks
          (ground (arith, i.kept, i.count)) (omega (arith, encode-size p, i.count, size))
          (whole_stream c.recv_buff p i.kept) (whole, tt) (short (omega arith)) (omega arith)

  stamped-size :
      (addr ts : ℕ) (junk : List ℕ) (q : Qos D)
      → length junk ≡ package_len
      → length (stamped addr ts junk q).payload ≡ package_len
  unfolding create_package
  stamped-size addr ts junk q size = omega (arith, length-drop 5 junk)

  reply_leaves :
      (addr ts recv_ts back_ts : ℕ) (junk : List ℕ) (tick : ℕ × ℕ) (q q' : Qos D)
      → q' ≡ sent_at F addr ts junk package_len q
      → Distinct (addrs q.sent_queue)
      → has addr (addrs q.sent_queue) ≡ false
      → has ts (timestamps q.sent_queue) ≡ false
      → ts ≢ 0
      → (process_package F (reply_to recv_ts (stamped addr ts junk q) tick) back_ts q').sent_queue
        ≡ q.sent_queue
  unfolding create_ack_package
  reply_leaves addr ts recv_ts back_ts junk tick q q' is d fresh unused nz = rw is (
      acknowledged_package_leaves F addr ts (sub32 (milisecs tick.0 tick.1) recv_ts)
        (milisecs tick.0 tick.1) back_ts package_len junk q d fresh unused nz)

  module _ (ctl : EpollCtl) where
    -- A client makes a package of 1300 bytes at a fresh address and stamps it with a timestamp
    -- below 2^32 that is neither 0 nor that of a waiting package. If the bytes reach a server's TCP
    -- connection that has kept no bytes and can send, and the server's answer reaches the client's
    -- TCP connection, which has kept no bytes either, then both handlers of readable data end and
    -- return 0, the server sends exactly one acknowledgement, and the client's sent queue is what
    -- it was before the package was made. Conditions: the queue's addresses are distinct, the
    -- clocks can be read, and the server's send accepts the 20 bytes. Two turns of fuel are enough.
    pub package_exchange :
        (nwc io : ℕ) (c : Conn D) (h : IoHandler) (state : TcpState) (server : State D)
        (later : List RecvReply) (now tick : ℕ × ℕ) (clock : List (ℕ × ℕ)) (sends : List SendReply)
        (nwc' io' : ℕ) (c' : Conn D) (h' : IoHandler) (state' : TcpState) (client : State D)
        (later' : List RecvReply) (now' : ℕ × ℕ) (clock' : List (ℕ × ℕ)) (addr ts : ℕ)
        (junk : List ℕ) (q : Qos D)
        → IsAnswering nwc io c h state server
        → h.recv ≡ some tcp
        → c.recv_buff ≡ []
        → c.rbytes ≡ 0
        → server.user.recvs ≡ received (encode (stamped addr ts junk q)) ∷ later
        → server.user.clock ≡ now ∷ tick ∷ clock
        → server.user.sends ≡ sent 20 ∷ sends
        → IsWaiting nwc' io' c' h' state' client
        → client.user.recvs
          ≡ received (encode (reply_to (milisecs now.0 now.1) (stamped addr ts junk q) tick))
            ∷ later'
        → client.user.clock ≡ now' ∷ clock'
        → c'.qos ≡ sent_at F addr ts junk package_len q
        → length junk ≡ package_len
        → ts < 2 ^ 32
        → ts ≢ 0
        → Distinct (addrs q.sent_queue)
        → has addr (addrs q.sent_queue) ≡ false
        → has ts (timestamps q.sent_queue) ≡ false
        → (t : State D) × (u : State D) × (d : Conn D) × (connection_on_recv F ctl 2 nwc server
            ≡ done (pos 0, t))
          × (t.user.wire
              ≡ server.user.wire
                ++ (h.fd, encode (reply_to (milisecs now.0 now.1) (stamped addr ts junk q) tick))
                  ∷ [])
          × (connection_on_recv F ctl 2 nwc' client ≡ done (pos 0, u))
          × (u.user.conns nwc' ≡ some d)
          × (d.qos.sent_queue ≡ q.sent_queue)
    package_exchange nwc io c h state server later now tick clock sends nwc' io' c' h' state' client
          later' now' clock' addr ts junk q i slot kept count arrives ticks ready i' back ticks' is
          size fits nz apart fresh unused =
        let p = stamped addr ts junk q in
        let reply = reply_to (milisecs now.0 now.1) p tick in
        let (t, answered, wire) =
          server_answers ctl nwc io c h state server p later now tick clock sends i slot kept count
            (stamped-IsWhole addr ts junk q size fits) (stamped-size addr ts junk q size) arrives
            ticks ready in
        let (u, took, conn) =
          client_takes ctl nwc' io' c' h' state' client reply later' now' clock' i'
            (reply_to-IsWhole (milisecs now.0 now.1) p tick fits) refl back ticks' in
        (
          t,
          u,
          record c' {
            qos = process_package F reply (milisecs now'.0 now'.1) c'.qos;
            rbytes = 0;
            recv_buff = [];
          },
          answered,
          wire,
          took,
          conn,
          reply_leaves addr ts (milisecs now.0 now.1) (milisecs now'.0 now'.1) junk tick q c'.qos is
              apart fresh unused nz,
        )
