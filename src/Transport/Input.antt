-- ===== src/Transport/Input.antt =====
-- The event handlers of nwc_tcp_handler.c and nwc_udp_handler.c (04-30_nwchecker_refactor): what a
-- readable or writable descriptor leads to. The operations of the connection layer, which are
-- reached through `struct nwc_io_operation`, are the record `Callbacks`.
use imooc_sock_core_tech.Prelude.{
  ℕ, Bool, true, ◌||◌, ◌&&◌, not, Option, none, some, [], ◌∷◌, ◌==◌, if◌then◌else◌,
}
use imooc_sock_core_tech.Prelude.Int.{ℤ, pos}
use imooc_sock_core_tech.Types.{
  em_write, einval, enetdown, enetunreach, econnreset, etimedout, econnrefused, ehostunreach,
}
use imooc_sock_core_tech.Outcome.{done, hang}
use imooc_sock_core_tech.Loop.{EpollCtl}
use imooc_sock_core_tech.Loop.Api.{looper_cancel_event}
use imooc_sock_core_tech.Io.{
  tcp, udp, IoHandler, parent, set_parent, tcp_handler, nts_listen, nts_connecting, nts_established,
  udp_handler, udp_server, tcp_handler_init,
}
use imooc_sock_core_tech.World.{
  IoOperation, AcceptReply, accepted, accept_failed, Cmd, pure, failing, ◌>>=◌, ◌>>◌, load_io,
  store_io, free_io, malloc, close_fd,
}
use imooc_sock_core_tech.Transport.Tcp.{tcp_accept}
use imooc_sock_core_tech.Transport.Api.{slot}

-- The functions that the pointers of an operation point to, applied to its `userdata`. `on_accept`
-- returns the operation of the new connection, `none` for NULL.
pub record Callbacks (D : Type 0) : Type 0 where
  pub on_accept : (userdata handle : ℕ) → Cmd D (Option ℕ)
  pub on_connect : (userdata : ℕ) → Cmd D ℤ
  pub on_recv : (userdata : ℕ) → Cmd D ℤ
  pub on_send : (userdata : ℕ) → Cmd D ℤ

-- The errors of a connection attempt at which `nwc_tcp_handle_output` gives up.
unfoldable pub is_connect_error : (err : ℕ) → Bool
is_connect_error err =
    (err == econnrefused)
    || ((err == econnreset)
        || ((err == etimedout)
            || ((err == ehostunreach)
                || ((err == enetunreach) || ((err == enetdown) || (err == einval))))))

module _ {D : Type 0} where
  -- `*op`: the operation is the first field of a connection, or the listener's own.
  unfoldable pub load_op : (op : ℕ) → Cmd D IoOperation
  load_op op s = elim (s.user.conns op) [
    | some c ↦ done (c.op, s)
    | none ↦ elim (s.user.listen_op) [
      | none ↦ failing s
      | some (a, listener) ↦ if a == op then done (listener, s) else failing s
    ]
  ]

  -- A call through a function pointer of the operation, a fault where it is NULL.
  unfoldable pub call_op : {A : Type 0} → (IoOperation → Bool) → (op : ℕ) → (ℕ → Cmd D A) → Cmd D A
  call_op is_set op f = do o ← load_op op; if is_set o then f o.userdata else failing

  unfoldable pub sys_accept : Cmd D AcceptReply
  sys_accept s = elim (s.user.accepts) [
    | [] ↦ hang
    | r ∷ rest ↦ done (r, record s { user = record (s.user) { accepts = rest } })
  ]

  -- `err` after `getsockopt(…, SO_ERROR, &err, …)`; it starts at 0.
  unfoldable pub sys_sock_error : Cmd D ℕ
  sys_sock_error s = elim (s.user.sock_errors) [
    | [] ↦ hang
    | r ∷ rest ↦ done (r, record s { user = record (s.user) { sock_errors = rest } })
  ]

  module _ (ctl : EpollCtl) (callbacks : Callbacks D) where
    -- A new connection of the listener `h`, whose operation is `op`.
    unfoldable pub accept_new : IoHandler → (op fd : ℕ) → Cmd D (Unit {0})
    accept_new h op fd = do
      newtcp ← malloc
      store_io newtcp tcp_handler_init
      new_op ← call_op (λ o. o.on_accept) op (λ ud. callbacks.on_accept ud newtcp)
      elim new_op [
        | none ↦ do free_io newtcp; close_fd (pos fd)
        | some p ↦ do
          n ← load_io newtcp
          store_io newtcp (set_parent (record (parent n) { ioop = some p; looper = h.looper }) n)
          rc ← tcp_accept ctl newtcp (pos fd)
          pure tt
      ]

    unfoldable pub tcp_handle_input : (io : ℕ) → Cmd D (Unit {0})
    tcp_handle_input io = do
      handler ← load_io io
      elim handler [
        | udp_handler h kind ↦ failing
        | tcp_handler h nts_listen ↦ do
          reply ← sys_accept
          elim reply [
            | accept_failed errno ↦ pure tt
            | accepted fd ↦ elim (h.ioop) [
              | none ↦ close_fd (pos fd)
              | some op ↦ accept_new h op fd
            ]
          ]
        | tcp_handler h _ ↦ elim (h.ioop) [
          | none ↦ pure tt
          | some op ↦ do rc ← call_op (λ o. o.on_recv) op callbacks.on_recv; pure tt
        ]
      ]

    -- `callback` on the operation of the handler, if it has one.
    abbrev pub notify : (IoOperation → Bool) → (ℕ → Cmd D ℤ) → IoHandler → Cmd D (Unit {0})
    notify is_set f h = elim (h.ioop) [
      | none ↦ pure tt
      | some op ↦ do rc ← call_op is_set op f; pure tt
    ]

    unfoldable pub tcp_handle_output : (io : ℕ) → Cmd D (Unit {0})
    tcp_handle_output io = do
      handler ← load_io io
      elim handler [
        | udp_handler h kind ↦ failing
        | tcp_handler h nts_connecting ↦ do
          rc ← looper_cancel_event ctl h.looper h.h_handle em_write
          err ← sys_sock_error
          if not (err == 0) && is_connect_error err then pure tt else (do
            store_io io (tcp_handler h nts_established)
            notify (λ o. o.on_connect) callbacks.on_connect h)
        | tcp_handler h state ↦ do
          rc ← looper_cancel_event ctl h.looper h.h_handle em_write
          store_io io (tcp_handler (record h { can_send = true }) state)
          notify (λ o. o.on_send) callbacks.on_send h
      ]

    unfoldable pub udp_handle_input : (io : ℕ) → Cmd D (Unit {0})
    udp_handle_input io = do
      handler ← load_io io
      elim handler [
        | tcp_handler h state ↦ failing
        | udp_handler h kind ↦
            if kind == udp_server
            then elim (h.ioop) [
              | none ↦ pure tt
              | some op ↦ do
                r ← call_op (λ o. o.on_accept) op (λ ud. callbacks.on_accept ud io)
                pure tt
            ]
            else notify (λ o. o.on_recv) callbacks.on_recv h
      ]

    unfoldable pub udp_handle_output : (io : ℕ) → Cmd D (Unit {0})
    udp_handle_output io = do
      handler ← load_io io
      elim handler [
        | tcp_handler h state ↦ failing
        | udp_handler h kind ↦ do
          rc ← looper_cancel_event ctl h.looper h.h_handle em_write
          store_io io (udp_handler (record h { can_send = true }) kind)
          notify (λ o. o.on_send) callbacks.on_send h
      ]

    -- `eh->handle_input(eh)` and `eh->handle_output(eh)`.
    unfoldable pub handle_input : (io : ℕ) → Cmd D (Unit {0})
    handle_input io = do
      p ← slot (λ h. h.handle_input) io
      elim p [ tcp ↦ tcp_handle_input io | udp ↦ udp_handle_input io ]

    unfoldable pub handle_output : (io : ℕ) → Cmd D (Unit {0})
    handle_output io = do
      p ← slot (λ h. h.handle_output) io
      elim p [ tcp ↦ tcp_handle_output io | udp ↦ udp_handle_output io ]
