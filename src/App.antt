-- ===== src/App.antt =====
-- The program: nwc_server.c, nwc_client.c and nwc_main.c of 04-30_nwchecker_refactor, and the
-- functions that its function pointers name.
pub mod Server
pub mod Client
pub mod Connecting
pub mod Dispatching
use imooc_sock_core_tech.Prelude.{ℕ, Option, none, some, List, ◌==◌, if◌then◌else◌}
use imooc_sock_core_tech.Prelude.Int.{ℤ, pos}
use imooc_sock_core_tech.Types.{NwcHandle, nwc_proto_udp}
use imooc_sock_core_tech.Outcome.{Outcome, done, fault, hang}
use imooc_sock_core_tech.Qos.{DoubleOps}
use imooc_sock_core_tech.Loop.{EpollCtl}
use imooc_sock_core_tech.Loop.Run.{WaitReply, exited, wait_error, waiting, epoll_run}
use imooc_sock_core_tech.World.{
  State, Conn, Cmd, pure, ◌>>=◌, ◌>>◌, get, load_conn, store_conn, malloc,
}
use imooc_sock_core_tech.Transport.Input.{Callbacks, handle_input, handle_output}
use imooc_sock_core_tech.Conn.{
  connection_init, connection_stat, connection_on_connect, add_nwc_tail, stat_worker, send_worker,
}
use imooc_sock_core_tech.Conn.Receive.{connection_on_recv}
use imooc_sock_core_tech.Conn.Send.{connection_on_send}
use imooc_sock_core_tech.Conn.Accept.{connection_udp_accept}

-- A command without its result.
abbrev pub end_of : {D A : Type 0} → Outcome (A × State D) → Outcome (State D)
end_of (done (a, s)) = done s
end_of fault = fault
end_of hang = hang

-- `fuel` bounds the inner loops, and `memory` is what `malloc` leaves in a connection.
module _ {D : Type 0} (F : DoubleOps D) (ctl : EpollCtl) (fuel : ℕ) (memory : Conn D) where
  -- `nwc_server_accept`; the user data is the configuration.
  unfoldable pub server_accept : (userdata handle : ℕ) → Cmd D (Option ℕ)
  server_accept userdata handle = do
    w ← get
    if w.cfg.prototype == nwc_proto_udp
        then (do connection_udp_accept F memory handle; pure none)
        else (do
          conn ← malloc
          store_conn conn (record (connection_init F conn w.cfg memory) { handle = some handle })
          add_nwc_tail conn
          pure (some conn))

  unfoldable pub callbacks : Callbacks D
  callbacks = record {
    on_accept = server_accept;
    on_connect = connection_on_connect;
    on_recv = connection_on_recv F ctl fuel;
    on_send = connection_on_send F ctl fuel;
  }

  -- `worker_do(userdata)`
  unfoldable pub call_worker : (worker_do userdata : ℕ) → State D → Outcome (State D)
  call_worker worker_do userdata s =
      if worker_do == stat_worker
      then end_of (connection_stat F userdata s)
      else if worker_do == send_worker
      then end_of (connection_on_send F ctl fuel userdata s)
      else fault

  -- `nwc_looper_run`, over the answers of `epoll_wait`.
  unfoldable pub looper_run : List WaitReply → NwcHandle → Cmd D (Unit {0})
  looper_run replies none = pure tt
  looper_run replies (some looper) = λ s.
      elim (epoll_run (λ h t. end_of (handle_input ctl callbacks h t))
        (λ h t. end_of (handle_output ctl callbacks h t)) call_worker fuel replies s) [
          | done (exited t) ↦ done (tt, t)
          | done (wait_error errno t) ↦ done (tt, t)
          | done (waiting t) ↦ hang
          | fault ↦ fault
          | hang ↦ hang
        ]
