-- ===== src/Conn/Stream.antt =====
-- The client's receive loop (nwc_connection.c) on a stream of packages.
use imooc_sock_core_tech.Prelude.{
  ℕ, zero, suc, ◌+◌, ◌^◌, ◌<◌, ◌≡◌, ◌≤◌, ◌∙◌, ap, refl, false, some, List, [], ◌∷◌, ◌++◌, arith,
  length, length-append, ◌==◌, take,
}
use imooc_sock_core_tech.Prelude.Int.{pos}
use imooc_sock_core_tech.Types.{u32, sub32, nwc_server}
use imooc_sock_core_tech.Outcome.{done}
use imooc_sock_core_tech.Qos.{DoubleOps, QosHdr, Qos, qos_hdr_len, process_package, milisecs}
use imooc_sock_core_tech.Wire.{encode, read_hdr}
use imooc_sock_core_tech.Wire.Roundtrip.{Fits, read_hdr-encode, length-encode, drop-encode}
use imooc_sock_core_tech.Loop.{EpollCtl}
use imooc_sock_core_tech.Io.{tcp, IoHandler, TcpState, tcp_handler}
use imooc_sock_core_tech.World.{
  State, Conn, RecvReply, received, load_conn, store_conn, read_clock, Cmd, update,
}
use imooc_sock_core_tech.Transport.Receiving.{io_recv-received}
use imooc_sock_core_tech.Conn.{recv_buffer_len}
use imooc_sock_core_tech.Conn.Receive.{receive_turn, receive_loop, keep_rest, connection_on_recv}

-- A package as a peer sends it: its words fit, and the payload has the length of its header.
pub record IsWhole (pkg : QosHdr) : Type 0 where
  pub fits : Fits pkg
  pub payload : pkg.length ≡ length pkg.payload
  pub size : qos_hdr_len + pkg.length < 2 ^ 32

abbrev pub AllWhole : List QosHdr → Type 0
AllWhole [] = Unit
AllWhole (p ∷ ps) = IsWhole p × AllWhole ps

-- The bytes of the packages, and then the bytes `tail`.
abbrev pub stream : List QosHdr → List ℕ → List ℕ
stream [] tail = tail
stream (p ∷ ps) tail = encode p ++ stream ps tail

-- The beginning of a package, without its end.
pub data IsPartial (tail : List ℕ) : Type 0 where
  short : length tail < qos_hdr_len → IsPartial tail
  cut :
      (pkg : QosHdr)
      → read_hdr tail ≡ some pkg
      → length tail < u32 (qos_hdr_len + pkg.length)
      → IsPartial tail

-- `store_conn`, as a state.
unfoldable pub stored : {D : Type 0} → (nwc : ℕ) → Conn D → State D → State D
stored nwc c s = record s { user = record (s.user) { conns = update s.user.conns nwc (some c) } }

take-length : (xs : List ℕ) → take (length xs) xs ≡ xs
take-length [] = refl
take-length (x ∷ xs) = ap (λ (r : List ℕ). x ∷ r) (take-length xs)

module _ {D : Type 0} (F : DoubleOps D) where
  abbrev pub process_all : List QosHdr → (recv_ts : ℕ) → Qos D → Qos D
  process_all [] recv_ts q = q
  process_all (p ∷ ps) recv_ts q = process_all ps recv_ts (process_package F p recv_ts q)

  process_package-payload :
      (pkg : QosHdr) (payload : List ℕ) (recv_ts : ℕ) (q : Qos D)
      → process_package F (record pkg { payload = payload }) recv_ts q
        ≡ process_package F pkg recv_ts q
  unfolding process_package
  process_package-payload pkg payload recv_ts q = ground arith

  module _ (ctl : EpollCtl) (nwc recv_ts : ℕ) where
    receive_turn-client :
        (p : QosHdr) (rest : List ℕ) (c : Conn D) (s : State D)
        (next : ℕ → List ℕ → Cmd D (ℕ × List ℕ))
        → IsWhole p
        → s.user.conns nwc ≡ some c
        → (s.user.cfg.mode == nwc_server) ≡ false
        → receive_turn F ctl nwc recv_ts (length (encode p ++ rest)) (encode p ++ rest) next s
          ≡ next
              (length rest)
              rest
              (stored nwc (record c { qos = process_package F p recv_ts c.qos }) s)
    unfolding receive_turn load_conn store_conn stored
    receive_turn-client p rest c s next whole found client = ground (
      arith,
      whole,
      read_hdr-encode p rest whole.fits,
      length-encode p rest,
      length-append p.payload rest,
      drop-encode p rest p.length whole.payload,
      process_package-payload p (p.payload ++ rest) recv_ts c.qos,
    )

    pub receive_turn-partial :
        (tail : List ℕ) (s : State D) (next : ℕ → List ℕ → Cmd D (ℕ × List ℕ))
        → IsPartial tail
        → receive_turn F ctl nwc recv_ts (length tail) tail next s ≡ done ((length tail, tail), s)
    unfolding receive_turn
    receive_turn-partial tail s next (short h) = ground arith
    receive_turn-partial tail s next (cut pkg header h) = ground arith

    -- With fuel for one turn more than there are packages the loop ends behind the last of them.
    receive_loop-stream :
        (k : ℕ) (ps : List QosHdr) (tail : List ℕ) (c : Conn D) (s : State D)
        → AllWhole ps
        → IsPartial tail
        → s.user.conns nwc ≡ some c
        → (s.user.cfg.mode == nwc_server) ≡ false
        → length ps < k
        → (t : State D) × (receive_loop F ctl k nwc recv_ts
              (length (stream ps tail))
              (stream ps tail)
              s
            ≡ done ((length tail, tail), t))
          × (t.user.conns nwc ≡ some (record c { qos = process_all ps recv_ts c.qos }))
    unfolding receive_loop
    receive_loop-stream zero ps tail c s whole partial found client fuel = absurd (omega arith)
    receive_loop-stream (suc k) [] tail c s whole partial found client fuel =
        (s, receive_turn-partial tail s (receive_loop F ctl k nwc recv_ts) partial, found)
    receive_loop-stream (suc k) (p ∷ ps) tail c s whole partial found client fuel =
        let c' : Conn D = record c { qos = process_package F p recv_ts c.qos } in
        let (t, looped, end) =
          receive_loop-stream k ps tail c' (stored nwc c' s) whole.1 partial
            (unfold stored in ground arith) (unfold stored in client) (omega arith) in
        (
          t,
          receive_turn-client p (stream ps tail) c s (receive_loop F ctl k nwc recv_ts) whole.0
                found client
              ∙ looped,
          end,
        )

  module _ (ctl : EpollCtl) where
    pub keep_rest-tail :
        (nwc : ℕ) (tail : List ℕ) (c : Conn D) (s : State D)
        → s.user.conns nwc ≡ some c
        → keep_rest F ctl nwc (length tail) tail s
          ≡ done (tt, stored nwc (record c { rbytes = length tail; recv_buff = tail }) s)
    unfolding keep_rest load_conn store_conn stored
    keep_rest-tail nwc [] c s found = ground arith
    keep_rest-tail nwc (b ∷ tail) c s found = ground (arith, take-length tail)

    -- On a client's TCP connection, a received chunk of bytes, no longer than the room in the
    -- buffer, that with the bytes kept from before makes up whole packages `ps` and a beginning
    -- `tail` of a further package is taken apart into just these: the handler returns 0, every
    -- package is processed once, in order and with the time of the reception, and `tail` is what is
    -- kept. Fuel for one turn more than there are packages is enough.
    pub connection_on_recv-stream :
        (fuel nwc io : ℕ) (c : Conn D) (h : IoHandler) (state : TcpState) (s : State D) (byte : ℕ)
        (chunk : List ℕ) (replies : List RecvReply) (now : ℕ × ℕ) (clock : List (ℕ × ℕ))
        (ps : List QosHdr) (tail : List ℕ)
        → s.user.conns nwc ≡ some c
        → c.handle ≡ some io
        → s.user.ios io ≡ some (tcp_handler h state)
        → h.recv ≡ some tcp
        → (s.user.cfg.mode == nwc_server) ≡ false
        → s.user.recvs ≡ received (byte ∷ chunk) ∷ replies
        → s.user.clock ≡ now ∷ clock
        → c.rbytes ≡ length c.recv_buff
        → length (byte ∷ chunk) + c.rbytes ≤ recv_buffer_len
        → c.recv_buff ++ byte ∷ chunk ≡ stream ps tail
        → AllWhole ps
        → IsPartial tail
        → length ps < fuel
        → (t : State D) × (connection_on_recv F ctl fuel nwc s ≡ done (pos 0, t))
          × (t.user.conns nwc
              ≡ some (record c {
                qos = process_all ps (milisecs now.0 now.1) c.qos;
                rbytes = length tail;
                recv_buff = tail;
              }))
    unfolding connection_on_recv load_conn read_clock
    connection_on_recv-stream fuel nwc io c h state s byte chunk replies now clock ps tail found
          handle handler slot client ready ticks count room split whole partial enough =
        let s' : State D = record s { user = record (s.user) { recvs = replies; clock = clock } } in
        let ts = milisecs now.0 now.1 in
        let (t, looped, end) =
          receive_loop-stream ctl nwc ts fuel ps tail c s' whole partial found client enough in
        let c' : Conn D = record c { qos = process_all ps ts c.qos } in
        let size : length (byte ∷ chunk) + c.rbytes ≡ length (stream ps tail) =
          omega (
            arith,
            length-append c.recv_buff (byte ∷ chunk),
            ap (λ (b : List ℕ). length b) split,
          ) in
        (
          stored nwc (record c' { rbytes = length tail; recv_buff = tail }) t,
          ground (
            arith,
            io_recv-received io h state s (byte ∷ chunk) replies (sub32 recv_buffer_len c.rbytes)
                handler slot ready (omega arith),
            looped,
            keep_rest-tail nwc tail c' t end,
            size,
          ),
          unfold stored in ground arith,
        )
