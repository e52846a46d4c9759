-- ===== src/Conn/Closing.antt =====
-- `nwc_connection_close` of nwc_connection.c and the handler that it frees.
use imooc_sock_core_tech.Prelude.{
  ℕ, ◌≡◌, ◌≢◌, ◌∙◌, refl, ◌∷◌, inl, inr, none, some, arith, Option-cases,
}
use imooc_sock_core_tech.Outcome.{Outcome, done, fault, hang}
use imooc_sock_core_tech.Prelude.Int.{ℤ, pos}
use imooc_sock_core_tech.Types.{NwcHandle}
use imooc_sock_core_tech.Loop.{EpollCtl, EpollEntry}
use imooc_sock_core_tech.Loop.Epoll.{find_entry}
use imooc_sock_core_tech.Io.{tcp, IoHandler, TcpState, tcp_handler, nts_closed}
use imooc_sock_core_tech.World.{State, Conn, Cmd, load_conn, load_io, free_io, update, ◌>>=◌}
use imooc_sock_core_tech.Transport.Api.{io_close, io_get_looper}
use imooc_sock_core_tech.Transport.Tcp.{tcp_close}
use imooc_sock_core_tech.Transport.Closing.{tcp_close-releases}
use imooc_sock_core_tech.Conn.{connection_close, close_workers}

module _ {D : Type 0} (ctl : EpollCtl) where
  -- The handler is gone after `nwc_io_close`.
  io_close-frees :
      (io : ℕ) (s t : State D) (rc : _) → io_close ctl io s ≡ done (rc, t) → t.user.ios io ≡ none
  unfolding io_close free_io
  io_close-frees io s t rc h = ground arith

  io_get_looper-fault : (io : ℕ) (t : State D) → t.user.ios io ≡ none → io_get_looper io t ≡ fault
  unfolding io_get_looper load_io
  io_get_looper-fault io t gone = ground arith

  -- A command that asks a handler for its looper after the handler is closed ends in a fault.
  closed_then_looper :
      (io : ℕ) (s : State D) (k : NwcHandle → Cmd D (Unit {0})) (r : Unit {0} × State D)
      → (io_close ctl io >>= λ rc. io_get_looper io >>= k) s ≢ done r
  closed_then_looper io s k r = go (io_close ctl io s) refl
    where
      go :
          (o : Outcome (ℤ × State D))
          → io_close ctl io s ≡ o
          → (io_close ctl io >>= λ rc. io_get_looper io >>= k) s ≢ done r
      go fault e h = ground arith
      go hang e h = ground arith
      go (done (rc, t)) e h = ground (arith, io_get_looper-fault io t, io_close-frees io s t rc)

  connection_close-step :
      (nwc io : ℕ) (s : State D) (c : Conn D)
      → s.user.conns nwc ≡ some c
      → c.handle ≡ some io
      → connection_close ctl nwc s
        ≡ (io_close ctl io >>= λ rc. io_get_looper io >>= close_workers nwc c io) s
  unfolding connection_close load_conn
  connection_close-step nwc io s c found at = ground arith

  -- Closing a connection never completes, in any state.
  pub connection_close-ne-done :
      (nwc : ℕ) (s : State D) (r : Unit {0} × State D) → connection_close ctl nwc s ≢ done r
  connection_close-ne-done nwc s r h = elim (Option-cases (s.user.conns nwc)) [
    | inl lost ↦ unfold connection_close load_conn in ground arith
    | inr (c, found) ↦ elim (Option-cases (c.handle)) [
      | inl none_yet ↦ unfold connection_close load_conn in ground arith
      | inr (io, at) ↦
          closed_then_looper io s (close_workers nwc c io) r
            (rw (connection_close-step nwc io s c found at) at h)
    ]
  ]

  >>=-done :
      {A B : Type 0} (m : Cmd D A) (f : A → Cmd D B) (s t : State D) (a : A)
      → m s ≡ done (a, t)
      → (m >>= f) s ≡ f a t
  >>=-done m f s t a e = ground (arith, e)

  >>=-fault :
      {A B : Type 0} (m : Cmd D A) (f : A → Cmd D B) (s : State D)
      → m s ≡ fault
      → (m >>= f) s ≡ fault
  >>=-fault m f s e = ground (arith, e)

  io_close-step :
      (io : ℕ) (h : IoHandler) (state : TcpState) (s t : State D)
      → s.user.ios io ≡ some (tcp_handler h state)
      → h.close ≡ some tcp
      → tcp_close ctl io s ≡ done (pos 0, t)
      → io_close ctl io s
        ≡ done (pos 0, record t { user = record (t.user) { ios = update t.user.ios io none } })
  unfolding io_close load_io free_io
  io_close-step io h state s t handler slot closed = ground (arith, handler, slot, closed)

  -- Closing a connection over a TCP handler that is not closed, has its close function set and has
  -- an allocated entry: `nwc_io_close` ends and returns 0, with the descriptor closed once and the
  -- handler freed, whatever `epoll_ctl` answers; the next call, for the looper of the same handler,
  -- reads the freed handler, so that `nwc_connection_close` ends there, in a fault.
  pub connection_close-fault :
      (nwc io l a : ℕ) (c : Conn D) (h : IoHandler) (state : TcpState) (entry : EpollEntry)
      (s : State D)
      → s.user.conns nwc ≡ some c
      → c.handle ≡ some io
      → s.user.ios io ≡ some (tcp_handler h state)
      → h.close ≡ some tcp
      → state ≢ nts_closed
      → h.looper ≡ some l
      → h.h_handle ≡ some a
      → find_entry a s.entries ≡ some entry
      → (t : State D) × (io_close ctl io s ≡ done (pos 0, t))
        × (t.user.closed_fds ≡ h.fd ∷ s.user.closed_fds)
        × (t.user.ios io ≡ none)
        × (io_get_looper io t ≡ fault)
        × (connection_close ctl nwc s ≡ fault)
  connection_close-fault nwc io l a c h state entry s conn at handler slot live looper handle
        found =
      let (t, closed, fds, still, removed, kept) =
        tcp_close-releases ctl io l a h state entry s handler live looper handle found in
      let t' : State D = record t { user = record (t.user) { ios = update t.user.ios io none } } in
      let freed = io_close-step io h state s t handler slot closed in
      let gone : t'.user.ios io ≡ none = ground arith in
      let asked = io_get_looper-fault io t' gone in
      let stuck : connection_close ctl nwc s ≡ fault =
        connection_close-step nwc io s c conn at
        ∙ >>=-done (io_close ctl io) (λ rc. io_get_looper io >>= close_workers nwc c io) s t'
            (pos 0) freed
        ∙ >>=-fault (io_get_looper io) (close_workers nwc c io) t' asked in
      (t', freed, fds, gone, asked, stuck)
