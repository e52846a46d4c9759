-- ===== src/Conn/Sending.antt =====
-- The client's send loop (nwc_connection.c).
use imooc_sock_core_tech.Prelude.{
  ℕ, zero, suc, ◌+◌, ◌^◌, ◌<◌, ◌≤◌, ◌≡◌, refl, true, some, List, [], ◌∷◌, ◌++◌, arith, length, ap,
  ltb, take, Bool-cases, inl, inr,
}
use imooc_sock_core_tech.Prelude.Int.{ℤ, pos}
use imooc_sock_core_tech.Types.{nwc_client}
use imooc_sock_core_tech.Outcome.{done}
use imooc_sock_core_tech.Qos.{DoubleOps, create_package, stamp, milisecs}
use imooc_sock_core_tech.Wire.{encode}
use imooc_sock_core_tech.Loop.{EpollCtl}
use imooc_sock_core_tech.Io.{tcp, IoHandler, TcpState, tcp_handler}
use imooc_sock_core_tech.World.{
  State, Conn, SendReply, sent, load_conn, load_io, store_conn, malloc, read_clock, update,
}
use imooc_sock_core_tech.Transport.Api.{io_send, io_can_send}
use imooc_sock_core_tech.Transport.Tcp.{tcp_send}
use imooc_sock_core_tech.Transport.Syscalls.{sys_send}
use imooc_sock_core_tech.Transport.Syscalls
use imooc_sock_core_tech.Conn.Send.{package_len, send_package, send_loop, connection_on_send}

-- The answers to sends that accept this many bytes.
abbrev pub accepting : List ℕ → List SendReply
accepting [] = []
accepting (n ∷ ns) = sent n ∷ accepting ns

-- Every send accepts some bytes, and no more than a package has.
abbrev pub AllPartial : List ℕ → Type 0
AllPartial [] = Unit
AllPartial (n ∷ ns) = (0 < n) × (n ≤ 1316) × AllPartial ns

abbrev pub sum : List ℕ → ℕ
sum [] = 0
sum (n ∷ ns) = n + sum ns

-- The connection at `nwc` sends over the TCP handler at `io`, with these readings of the clock and
-- these sends to come.
pub record IsSending {D : Type 0} (nwc io bandwidth : ℕ) (h : IoHandler) (state : TcpState)
    (clock : List (ℕ × ℕ)) (ns : List ℕ) (s : State D) : Type 0 where
  pub c : Conn D
  pub conn : s.user.conns nwc ≡ some c
  pub handle : c.handle ≡ some io
  pub budget : c.qos.send_bandwidth ≡ bandwidth
  pub handler : s.user.ios io ≡ some (tcp_handler h state)
  pub send : h.send ≡ some tcp
  pub ticks : s.user.clock ≡ clock
  pub sends : s.user.sends ≡ accepting ns

module _ {D : Type 0} (F : DoubleOps D) (ctl : EpollCtl) (nwc io bandwidth : ℕ) (h : IoHandler)
    (state : TcpState) where
  send_package-sent :
      (now : ℕ × ℕ) (clock : List (ℕ × ℕ)) (n : ℕ) (ns : List ℕ) (s : State D)
      → IsSending nwc io bandwidth h state (now ∷ clock) (n ∷ ns) s
      → (t : State D) × (send_package F ctl nwc s ≡ done (pos n, t))
        × IsSending nwc io bandwidth h state clock ns t
  unfolding send_package load_conn load_io store_conn malloc read_clock io_send tcp_send sys_send
      Syscalls.send_loop create_package
  send_package-sent now clock n ns s i =
      let ts = milisecs now.0 now.1 in
      let made = create_package F s.user.brk 0 s.user.junk package_len i.c.qos in
      let c' : Conn D = record (i.c) {
        qos = record (made.1) { sent_queue = stamp s.user.brk ts (made.1).sent_queue };
      } in
      let t : State D = record s {
        user = record (s.user) {
          brk = s.user.brk + 1;
          clock = clock;
          conns = update s.user.conns nwc (some c');
          sends = accepting ns;
          wire = s.user.wire ++ (h.fd, take n (encode (record (made.0) { timestamp = ts }))) ∷ [];
        };
      } in
      (
        t,
        ground (arith, i.conn, i.handle, i.handler, i.send, i.ticks, i.sends),
        record {
          c = c';
          conn = ground arith;
          handle = i.handle;
          budget = i.budget;
          handler = i.handler;
          send = i.send;
          ticks = refl;
          sends = refl;
        },
      )

  -- A run of the loop from `cur` bytes on ends, behind the sends `used`: they reach the bandwidth,
  -- and exceed it by less than a package.
  pub record SendsEnough (fuel cur : ℕ) (rc : ℤ) (ns : List ℕ) (s : State D) : Type 0 where
    pub rc' : ℤ
    pub t : State D
    pub used : List ℕ
    pub rest : List ℕ
    pub left : List (ℕ × ℕ)
    pub ends : send_loop F ctl fuel nwc cur rc s ≡ done (rc', t)
    pub split : ns ≡ used ++ rest
    pub enough : bandwidth ≤ cur + sum used
    pub bound : cur + sum used < bandwidth + 1316
    pub sending : IsSending nwc io bandwidth h state left rest t

  send_loop-over :
      (k cur : ℕ) (rc : ℤ) (clock : List (ℕ × ℕ)) (ns : List ℕ) (s : State D)
      → IsSending nwc io bandwidth h state clock ns s
      → cur < bandwidth + 1316
      → bandwidth ≤ cur
      → SendsEnough (suc k) cur rc ns s
  unfolding send_loop load_conn
  send_loop-over k cur rc clock ns s i under over = record {
    rc' = rc;
    t = s;
    used = [];
    rest = ns;
    left = clock;
    ends = ground (arith, i.conn, i.budget);
    split = refl;
    enough = omega arith;
    bound = omega arith;
    sending = i;
  }

  send_loop-more :
      (k cur : ℕ) (rc : ℤ) (now : ℕ × ℕ) (clock : List (ℕ × ℕ)) (n : ℕ) (ns : List ℕ)
      (s u : State D)
      → IsSending nwc io bandwidth h state (now ∷ clock) (n ∷ ns) s
      → send_package F ctl nwc s ≡ done (pos n, u)
      → 0 < n
      → cur + n < 2 ^ 32
      → cur < bandwidth
      → SendsEnough k (cur + n) (pos n) ns u
      → SendsEnough (suc k) cur rc (n ∷ ns) s
  unfolding send_loop load_conn
  send_loop-more k cur rc now clock n ns s u i one some_sent small more r = record {
    rc' = r.rc';
    t = r.t;
    used = n ∷ r.used;
    rest = r.rest;
    left = r.left;
    ends = ground (arith, one, r.ends, i.conn, i.budget);
    split = ap (λ (x : List ℕ). n ∷ x) r.split;
    enough = omega (arith, r.enough);
    bound = omega (arith, r.bound);
    sending = r.sending;
  }

  send_loop-ends :
      (k cur : ℕ) (rc : ℤ) (clock : List (ℕ × ℕ)) (ns : List ℕ) (s : State D)
      → IsSending nwc io bandwidth h state clock ns s
      → AllPartial ns
      → bandwidth < 2 ^ 31
      → cur < bandwidth + 1316
      → bandwidth ≤ cur + k
      → bandwidth ≤ cur + length clock
      → bandwidth ≤ cur + length ns
      → SendsEnough (suc k) cur rc ns s
  send_loop-ends k cur rc [] ns s i all small under fuel ticks sends =
      send_loop-over k cur rc [] ns s i under (omega arith)
  send_loop-ends k cur rc (now ∷ clock) [] s i all small under fuel ticks sends =
      send_loop-over k cur rc (now ∷ clock) [] s i under (omega arith)
  send_loop-ends zero cur rc (now ∷ clock) (n ∷ ns) s i all small under fuel ticks sends =
      send_loop-over zero cur rc (now ∷ clock) (n ∷ ns) s i under (omega arith)
  send_loop-ends (suc k) cur rc (now ∷ clock) (n ∷ ns) s i all small under fuel ticks sends =
      elim (Bool-cases (ltb cur bandwidth)) [
        | inr over ↦ send_loop-over (suc k) cur rc (now ∷ clock) (n ∷ ns) s i under (ground arith)
        | inl more ↦
            let lt : cur < bandwidth = ground arith in
            let (u, one, i') = send_package-sent now clock n ns s i in
            send_loop-more (suc k) cur rc now clock n ns s u i one all.0 (omega (arith, all.1)) lt (
              send_loop-ends k (cur + n) (pos n) clock ns u i' all.2 small (omega (arith, all.1))
                (omega (arith, all.0)) (omega (arith, all.0)) (omega (arith, all.0)))
      ]

  -- A client's send turn over TCP ends: where the handler can send, every send accepts some bytes
  -- and at most 1316, and the clock can be read often enough, for a bandwidth below 2^31 fuel for
  -- one turn more than the bandwidth's bytes is enough, and the turn makes exactly the sends
  -- `used`, whose accepted bytes reach the bandwidth and exceed it by less than 1316.
  pub connection_on_send-ends :
      (clock : List (ℕ × ℕ)) (ns : List ℕ) (s : State D)
      → IsSending nwc io bandwidth h state clock ns s
      → AllPartial ns
      → bandwidth < 2 ^ 31
      → bandwidth ≤ length clock
      → bandwidth ≤ length ns
      → h.can_send ≡ true
      → s.user.cfg.mode ≡ nwc_client
      → (rc : ℤ) × (t : State D) × (used : List ℕ) × (rest : List ℕ) × (connection_on_send F ctl
            (suc bandwidth)
            nwc
            s
          ≡ done (rc, t))
        × (ns ≡ used ++ rest)
        × (t.user.sends ≡ accepting rest)
        × (bandwidth ≤ sum used)
        × (sum used < bandwidth + 1316)
  unfolding connection_on_send load_conn io_can_send load_io
  connection_on_send-ends clock ns s i all small ticks sends can client =
      let r =
        send_loop-ends bandwidth 0 (pos 0) clock ns s i all small (omega arith) (omega arith)
          (omega arith) (omega arith) in
      (
        r.rc',
        r.t,
        r.used,
        r.rest,
        ground (arith, i.conn, i.handle, i.handler, r.ends),
        r.split,
        r.sending.sends,
        omega (arith, r.enough),
        omega (arith, r.bound),
      )
