-- ===== src/App/Dispatching.antt =====
-- A round of workers (`nwc_looper_dispatch_worker` of nwc_looper.c) with the program's two workers,
-- `nwc_connection_stat` and `nwc_connection_on_send` (nwc_connection.c).
use imooc_sock_core_tech.Prelude.{
  ℕ, ◌+◌, zero, suc, ◌<◌, ◌≡◌, ◌∙◌, refl, Bool, true, false, Option, none, some, List, arith, ◌==◌,
  Distinct, length, if◌then◌else◌, Bool-cases, inl, inr,
}
use imooc_sock_core_tech.Prelude.Int.{ℤ, pos, nonpositive, neg, ◌==ℤ◌}
use imooc_sock_core_tech.Types.{u32, eagain}
use imooc_sock_core_tech.Outcome.{Outcome, done, fault, hang}
use imooc_sock_core_tech.Qos.{DoubleOps, qos_stat}
use imooc_sock_core_tech.Loop.{EpollCtl}
use imooc_sock_core_tech.Loop.Workers.{dispatch_worker}
use imooc_sock_core_tech.Loop.Dispatch.{worker_addrs, AllSet, call_each, dispatch_worker-kept}
use imooc_sock_core_tech.Io.{Handler, Proto, parent, tcp, udp, tcp_handler, udp_handler}
use imooc_sock_core_tech.World.{
  State, Conn, Cmd, SockAddr, pure, failing, ◌>>=◌, ◌>>◌, get, of_option, load_conn, store_conn,
  load_io, store_io, malloc, read_clock,
}
use imooc_sock_core_tech.Transport.Syscalls.{sys_send, sys_sendto}
use imooc_sock_core_tech.Transport.Tcp.{tcp_send}
use imooc_sock_core_tech.Transport.Udp.{udp_send, udp_sendto}
use imooc_sock_core_tech.Transport.Api.{slot, io_send, io_can_send}
use imooc_sock_core_tech.Conn.{connection_stat, connection_close, stat_worker, send_worker}
use imooc_sock_core_tech.Conn.Closing.{connection_close-ne-done}
use imooc_sock_core_tech.Conn.Send
use imooc_sock_core_tech.Conn.Send.{send_package, connection_on_send}
use imooc_sock_core_tech.App.{call_worker, end_of}

module _ {D : Type 0} where
  -- A run of the command that ends leaves the worker list as it was.
  abbrev KeepsWorkers : {A : Type 0} → Cmd D A → Type 0
  KeepsWorkers {A} m =
      (s : State D) (a : A) (t : State D) → m s ≡ done (a, t) → t.worker_hdr ≡ s.worker_hdr

  >>=-KeepsWorkers :
      {A B : Type 0} (m : Cmd D A) (f : A → Cmd D B)
      → KeepsWorkers m
      → ((a : A) → KeepsWorkers (f a))
      → KeepsWorkers (m >>= f)
  >>=-KeepsWorkers {A} {B} m f first then_ s b t ran = go (m s) refl ran
    where
      go :
          (o : Outcome (A × State D))
          → m s ≡ o
          → (elim o [ done (a, s') ↦ f a s' | fault ↦ fault | hang ↦ hang ]) ≡ done (b, t)
          → t.worker_hdr ≡ s.worker_hdr
      go (done (a, s')) e h = then_ a s' b t h ∙ first s a s' e
      go fault e h = cc
      go hang e h = cc

  pure-KeepsWorkers : {A : Type 0} (a : A) → KeepsWorkers (pure a)
  pure-KeepsWorkers a s b t ran = ground arith

  of_option-KeepsWorkers : {A : Type 0} (o : Option A) → KeepsWorkers (of_option o)
  of_option-KeepsWorkers none s b t ran = cc
  of_option-KeepsWorkers (some a) s b t ran = ground arith

  if-KeepsWorkers :
      {A : Type 0} (b : Bool) (m n : Cmd D A)
      → KeepsWorkers m
      → KeepsWorkers n
      → KeepsWorkers (if b then m else n)
  if-KeepsWorkers true m n left right = left
  if-KeepsWorkers false m n left right = right

  proto-KeepsWorkers :
      {A : Type 0} (p : Proto) (m n : Cmd D A)
      → KeepsWorkers m
      → KeepsWorkers n
      → KeepsWorkers (elim p [ tcp ↦ m | udp ↦ n ])
  proto-KeepsWorkers tcp m n left right = left
  proto-KeepsWorkers udp m n left right = right

  load_conn-KeepsWorkers : (p : ℕ) → KeepsWorkers (load_conn p)
  unfolding load_conn
  load_conn-KeepsWorkers p s = of_option-KeepsWorkers (s.user.conns p) s

  load_io-KeepsWorkers : (p : ℕ) → KeepsWorkers (load_io p)
  unfolding load_io
  load_io-KeepsWorkers p s = of_option-KeepsWorkers (s.user.ios p) s

  store_conn-KeepsWorkers : (p : ℕ) (c : Conn D) → KeepsWorkers (store_conn p c)
  unfolding store_conn
  store_conn-KeepsWorkers p c s a t ran = ground arith

  store_io-KeepsWorkers : (p : ℕ) (h : Handler) → KeepsWorkers (store_io p h)
  unfolding store_io
  store_io-KeepsWorkers p h s a t ran = ground arith

  malloc-KeepsWorkers : KeepsWorkers malloc
  unfolding malloc
  malloc-KeepsWorkers s a t ran = ground arith

  get-KeepsWorkers : KeepsWorkers get
  get-KeepsWorkers s a t ran = ground arith

  read_clock-KeepsWorkers : KeepsWorkers read_clock
  unfolding read_clock
  read_clock-KeepsWorkers s a t ran = ground arith

  sys_send-KeepsWorkers : (fd : ℤ) (buffer : List ℕ) → KeepsWorkers (sys_send fd buffer)
  unfolding sys_send
  sys_send-KeepsWorkers fd buffer s a t ran = ground arith

  sys_sendto-KeepsWorkers :
      (fd : ℤ) (buffer : List ℕ) (toaddr : Option SockAddr) (toaddrlen : ℕ)
      → KeepsWorkers (sys_sendto fd buffer toaddr toaddrlen)
  unfolding sys_sendto
  sys_sendto-KeepsWorkers fd buffer toaddr toaddrlen s a t ran = ground arith

  tcp_send-KeepsWorkers : (io : ℕ) (buffer : List ℕ) → KeepsWorkers (tcp_send io buffer)
  unfolding tcp_send
  tcp_send-KeepsWorkers io buffer = >>=-KeepsWorkers (load_io io) _ (load_io-KeepsWorkers io) go
    where
      go :
          (handler : Handler)
          → KeepsWorkers {A = ℤ} (elim handler as (λ k. Cmd D ℤ) [
            | udp_handler h kind ↦ failing
            | tcp_handler h state ↦ do
              r ← sys_send h.fd buffer
              if r.1
                  then (do
                    store_io io (tcp_handler (record h { can_send = false }) state)
                    pure r.0)
                  else pure r.0
          ])
      go (udp_handler h kind) = λ s a t ran. cc
      go (tcp_handler h state) =
          >>=-KeepsWorkers (sys_send h.fd buffer) _ (sys_send-KeepsWorkers h.fd buffer) λ r.
            if-KeepsWorkers r.1 _ _
              (>>=-KeepsWorkers (store_io io (tcp_handler (record h { can_send = false }) state)) _
                (store_io-KeepsWorkers io _) (λ u. pure-KeepsWorkers r.0))
              (pure-KeepsWorkers r.0)

  udp_send-KeepsWorkers : (io : ℕ) (buffer : List ℕ) → KeepsWorkers (udp_send io buffer)
  unfolding udp_send udp_sendto
  udp_send-KeepsWorkers io buffer = >>=-KeepsWorkers (load_io io) _ (load_io-KeepsWorkers io) go
    where
      go :
          (handler : Handler)
          → KeepsWorkers {A = ℤ} (elim handler as (λ k. Cmd D ℤ) [
            | tcp_handler h state ↦ failing
            | udp_handler h kind ↦ do r ← sys_sendto h.fd buffer none 0; pure r.0
          ])
      go (tcp_handler h state) = λ s a t ran. cc
      go (udp_handler h kind) =
          >>=-KeepsWorkers (sys_sendto h.fd buffer none 0) _
            (sys_sendto-KeepsWorkers h.fd buffer none 0) λ r. pure-KeepsWorkers r.0

  io_send-KeepsWorkers : (io : ℕ) (buffer : List ℕ) → KeepsWorkers (io_send io buffer)
  unfolding io_send
  io_send-KeepsWorkers io buffer =
      >>=-KeepsWorkers (slot (λ h. h.send) io) _
        (>>=-KeepsWorkers (load_io io) _ (load_io-KeepsWorkers io)
          λ h. of_option-KeepsWorkers (parent h).send)
        λ p.
          proto-KeepsWorkers p (tcp_send io buffer) (udp_send io buffer)
            (tcp_send-KeepsWorkers io buffer) (udp_send-KeepsWorkers io buffer)

  io_can_send-KeepsWorkers : (io : ℕ) → KeepsWorkers (io_can_send io)
  unfolding io_can_send
  io_can_send-KeepsWorkers io =
      >>=-KeepsWorkers (load_io io) _ (load_io-KeepsWorkers io)
        λ h. pure-KeepsWorkers (parent h).can_send

  -- `nwc_connection_close` never ends.
  connection_close-KeepsWorkers :
      (ctl : EpollCtl) (nwc : ℕ) → KeepsWorkers (connection_close ctl nwc)
  connection_close-KeepsWorkers ctl nwc s a t ran =
      absurd (connection_close-ne-done ctl nwc s (a, t) ran)

  module _ (F : DoubleOps D) (ctl : EpollCtl) where
    connection_stat-KeepsWorkers : (nwc : ℕ) → KeepsWorkers (connection_stat F nwc)
    unfolding connection_stat
    connection_stat-KeepsWorkers nwc =
        >>=-KeepsWorkers (load_conn nwc) _ (load_conn-KeepsWorkers nwc) λ c.
          >>=-KeepsWorkers read_clock _ read_clock-KeepsWorkers λ nowms.
            >>=-KeepsWorkers (of_option (qos_stat F nowms c.qos)) _
              (of_option-KeepsWorkers (qos_stat F nowms c.qos))
              λ r.
                >>=-KeepsWorkers (store_conn nwc (record c { qos = r.0 })) _
                  (store_conn-KeepsWorkers nwc _) λ u. pure-KeepsWorkers (pos 0)

    send_package-KeepsWorkers : (nwc : ℕ) → KeepsWorkers (send_package F ctl nwc)
    unfolding send_package
    send_package-KeepsWorkers nwc =
        >>=-KeepsWorkers (load_conn nwc) _ (load_conn-KeepsWorkers nwc) λ c.
          >>=-KeepsWorkers malloc _ malloc-KeepsWorkers λ addr.
            >>=-KeepsWorkers get _ get-KeepsWorkers λ w.
              >>=-KeepsWorkers read_clock _ read_clock-KeepsWorkers λ ts.
                >>=-KeepsWorkers (store_conn nwc _) _ (store_conn-KeepsWorkers nwc _) λ u.
                  >>=-KeepsWorkers (of_option c.handle) _ (of_option-KeepsWorkers c.handle)
                    λ io. io_send-KeepsWorkers io _

    send_loop-KeepsWorkers :
        (k nwc cur : ℕ) (rc : ℤ) → KeepsWorkers (Send.send_loop F ctl k nwc cur rc)
    unfolding Send.send_loop
    send_loop-KeepsWorkers zero nwc cur rc = λ s a t ran. cc
    send_loop-KeepsWorkers (suc k) nwc cur rc =
        >>=-KeepsWorkers (load_conn nwc) _ (load_conn-KeepsWorkers nwc) λ c.
          if-KeepsWorkers _ _ _
            (>>=-KeepsWorkers (send_package F ctl nwc) _ (send_package-KeepsWorkers nwc) λ rc'.
              if-KeepsWorkers (nonpositive rc') _ _
                (if-KeepsWorkers (rc' ==ℤ neg eagain) _ _ (pure-KeepsWorkers rc') (
                  >>=-KeepsWorkers (connection_close ctl nwc) _
                    (connection_close-KeepsWorkers ctl nwc) λ u. pure-KeepsWorkers rc'))
                (send_loop-KeepsWorkers k nwc (u32 (cur + Send.to_u32 rc')) rc'))
            (pure-KeepsWorkers rc)

    connection_on_send-KeepsWorkers :
        (fuel nwc : ℕ) → KeepsWorkers (connection_on_send F ctl fuel nwc)
    unfolding connection_on_send
    connection_on_send-KeepsWorkers fuel nwc =
        >>=-KeepsWorkers (load_conn nwc) _ (load_conn-KeepsWorkers nwc) λ c.
          >>=-KeepsWorkers (of_option c.handle) _ (of_option-KeepsWorkers c.handle) λ io.
            >>=-KeepsWorkers (io_can_send io) _ (io_can_send-KeepsWorkers io) λ can.
              if-KeepsWorkers can _ _
                (>>=-KeepsWorkers get _ get-KeepsWorkers λ w.
                  if-KeepsWorkers _ _ _ (send_loop-KeepsWorkers fuel nwc 0 (pos 0))
                    (pure-KeepsWorkers (pos 0)))
                (pure-KeepsWorkers (pos 0))

  end_of-KeepsWorkers :
      {A : Type 0} (m : Cmd D A) (s t : State D)
      → KeepsWorkers m
      → end_of (m s) ≡ done t
      → t.worker_hdr ≡ s.worker_hdr
  end_of-KeepsWorkers {A} m s t kept ran = go (m s) refl ran
    where
      go : (o : Outcome (A × State D)) → m s ≡ o → end_of o ≡ done t → t.worker_hdr ≡ s.worker_hdr
      go (done (a, s')) e h = ground (arith, kept s a s' e)
      go fault e h = cc
      go hang e h = cc

module _ {D : Type 0} (F : DoubleOps D) (ctl : EpollCtl) (fuel : ℕ) (memory : Conn D) where
  call_worker-keeps :
      (worker_do userdata : ℕ) (s t : State D)
      → call_worker F ctl fuel memory worker_do userdata s ≡ done t
      → t.worker_hdr ≡ s.worker_hdr
  unfolding call_worker
  call_worker-keeps worker_do userdata s t ran = elim (Bool-cases (worker_do == stat_worker)) [
    | inl stat ↦
        end_of-KeepsWorkers (connection_stat F userdata) s t
          (connection_stat-KeepsWorkers F ctl userdata) (rw stat at ran)
    | inr other ↦ elim (Bool-cases (worker_do == send_worker)) [
      | inl send ↦
          end_of-KeepsWorkers (connection_on_send F ctl fuel userdata) s t
            (connection_on_send-KeepsWorkers F ctl fuel userdata) (rw send at (rw other at ran))
      | inr neither ↦ ground arith
    ]
  ]

  -- With the program's two workers as callbacks, `nwc_connection_stat` and
  -- `nwc_connection_on_send`, and from a list of workers at distinct addresses, none of which is
  -- cancelled, the walk with two cursors, given fuel for one turn more than there are workers, is
  -- the same as calling each worker of the list once, in order, with its user data: both end in the
  -- same state, or both fault, or both hang.
  pub dispatch_worker-call_each :
      (k : ℕ) (s : State D)
      → Distinct (worker_addrs s.worker_hdr)
      → AllSet s.worker_hdr
      → length s.worker_hdr < k
      → dispatch_worker (call_worker F ctl fuel memory) k s
        ≡ call_each (call_worker F ctl fuel memory) s.worker_hdr s
  dispatch_worker-call_each = dispatch_worker-kept (call_worker F ctl fuel memory) call_worker-keeps
