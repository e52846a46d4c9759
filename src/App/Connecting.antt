-- ===== src/App/Connecting.antt =====
-- How a connection attempt comes to its end (nwc_tcp_handler.c, nwc_connection.c, nwc_looper.c).
use imooc_sock_core_tech.Prelude.{
  ℕ, ◌+◌, ◌≡◌, refl, true, some, List, [], ◌∷◌, ◌++◌, arith, append_assoc, Option-cases,
}
use imooc_sock_core_tech.Prelude.Int.{ℤ, pos}
use imooc_sock_core_tech.Types.{em_write}
use imooc_sock_core_tech.Outcome.{done}
use imooc_sock_core_tech.Qos.{DoubleOps}
use imooc_sock_core_tech.Loop.{Worker, EpollCtl}
use imooc_sock_core_tech.Loop.Workers.{register_worker}
use imooc_sock_core_tech.Loop.Epoll.{epoll_cancel_event, entry_at, epoll_ctl, set_entry}
use imooc_sock_core_tech.Loop.Api.{looper_register_worker, looper_cancel_event}
use imooc_sock_core_tech.Io.{
  IoHandler, Handler, parent, tcp_handler, nts_connecting, nts_established,
}
use imooc_sock_core_tech.World.{
  State, Conn, load_conn, store_conn, load_io, store_io, malloc, update,
}
use imooc_sock_core_tech.Transport.Api.{io_get_looper}
use imooc_sock_core_tech.Transport.Input.{tcp_handle_output, call_op, load_op, sys_sock_error}
use imooc_sock_core_tech.Conn.{connection_send, connection_on_connect, stat_worker, send_worker}
use imooc_sock_core_tech.App.{callbacks}

-- The two workers of the connection at `nwc`, at two addresses.
abbrev pub two_workers : (nwc stat send : ℕ) → List Worker
two_workers nwc stat send =
    record { addr = stat; userdata = nwc; worker_do = stat_worker }
    ∷ record { addr = send; userdata = nwc; worker_do = send_worker }
    ∷ []

module _ {D : Type 0} where
  connection_send-registers :
      (nwc io l : ℕ) (c : Conn D) (h : Handler) (s : State D)
      → s.user.conns nwc ≡ some c
      → c.handle ≡ some io
      → s.user.ios io ≡ some h
      → (parent h).looper ≡ some l
      → (t : State D) × (connection_send nwc s ≡ done (pos 0, t))
        × (t.worker_hdr ≡ s.worker_hdr ++ two_workers nwc s.user.brk (s.user.brk + 1))
        × (t.user.ios ≡ s.user.ios)
        × (t.user.conns nwc
            ≡ some (record c {
              stat_wk_handle = some s.user.brk;
              send_wk_handle = some (s.user.brk + 1);
            }))
  unfolding connection_send load_conn store_conn load_io malloc io_get_looper looper_register_worker
      register_worker
  connection_send-registers nwc io l c h s found handle handler looper =
      let brk = s.user.brk in
      let stat : Worker = record { addr = brk; userdata = nwc; worker_do = stat_worker } in
      let send : Worker = record { addr = brk + 1; userdata = nwc; worker_do = send_worker } in
      let c1 : Conn D = record c { stat_wk_handle = some brk } in
      let c2 : Conn D = record c { stat_wk_handle = some brk; send_wk_handle = some (brk + 1) } in
      let t : State D = record s {
        worker_hdr = (s.worker_hdr ++ stat ∷ []) ++ send ∷ [];
        user = record (s.user) {
          brk = brk + 1 + 1;
          conns = update (update s.user.conns nwc (some c1)) nwc (some c2);
        };
      } in
      (
        t,
        ground (arith, found, handle, handler, looper),
        append_assoc s.worker_hdr (stat ∷ []) (send ∷ []),
        refl,
        ground arith,
      )

  looper_cancel_event-rest :
      (ctl : EpollCtl) (h : IoHandler) (rc : ℤ) (s s' : State D)
      → looper_cancel_event ctl h.looper h.h_handle em_write s ≡ done (rc, s')
      → (s'.user ≡ s.user) × (s'.worker_hdr ≡ s.worker_hdr)
  unfolding looper_cancel_event epoll_cancel_event entry_at epoll_ctl set_entry
  looper_cancel_event-rest ctl h rc s s' e =
      ground (arith, Option-cases h.looper, Option-cases h.h_handle)

  module _ (F : DoubleOps D) (ctl : EpollCtl) (fuel : ℕ) (memory : Conn D) where
    -- When the descriptor of a connecting TCP handler becomes writable and the socket reports no
    -- error, the handler ends: it is established, and the workers for the statistics and for
    -- sending are registered for its connection, in this order and behind the other workers.
    -- Conditions: the handler's operation is that of its connection, as the client sets it up, and
    -- the write event can be cancelled.
    pub tcp_handle_output-connects :
        (io nwc l : ℕ) (c : Conn D) (h : IoHandler) (rc : ℤ) (s s' : State D) (errors : List ℕ)
        → s.user.ios io ≡ some (tcp_handler h nts_connecting)
        → h.ioop ≡ some nwc
        → h.looper ≡ some l
        → s.user.conns nwc ≡ some c
        → c.op.on_connect ≡ true
        → c.op.userdata ≡ nwc
        → c.handle ≡ some io
        → s.user.sock_errors ≡ 0 ∷ errors
        → looper_cancel_event ctl h.looper h.h_handle em_write s ≡ done (rc, s')
        → (t : State D) × (tcp_handle_output ctl (callbacks F ctl fuel memory) io s ≡ done (tt, t))
          × (t.user.ios io ≡ some (tcp_handler h nts_established))
          × (t.worker_hdr ≡ s.worker_hdr ++ two_workers nwc s.user.brk (s.user.brk + 1))
    unfolding tcp_handle_output load_io store_io sys_sock_error call_op load_op callbacks
        connection_on_connect
    tcp_handle_output-connects io nwc l c h rc s s' errors handler op looper conn on userdata handle
          error cancelled =
        let (users, workers) = looper_cancel_event-rest ctl h rc s s' cancelled in
        let s2 : State D = record s' {
          user = record (s'.user) {
            sock_errors = errors;
            ios = update s'.user.ios io (some (tcp_handler h nts_established));
          };
        } in
        let (t, ran, hdr, ios, after) =
          connection_send-registers nwc io l c (tcp_handler h nts_established) s2
            (ground (arith, users, conn)) handle (ground arith) looper in
        (
          t,
          ground (arith, users, ran, handler, conn, error, cancelled),
          ground (arith, ios),
          ground (arith, hdr, users, workers),
        )
