-- ===== src/App/Server.antt =====
-- 04-30_nwchecker_refactor/nwc_server.c
use imooc_sock_core_tech.Prelude.{ℕ, true, ◌||◌, none, some, List, [], ◌==◌, if◌then◌else◌}
use imooc_sock_core_tech.Prelude.Int.{ℤ, pos, negsuc, ◌==ℤ◌}
use imooc_sock_core_tech.Types.{nwc_proto_tcp, nwc_proto_udp}
use imooc_sock_core_tech.Outcome.{done}
use imooc_sock_core_tech.Qos.{DoubleOps}
use imooc_sock_core_tech.Config.{Configuration}
use imooc_sock_core_tech.Loop.{EpollCtl}
use imooc_sock_core_tech.Loop.Epoll.{CreateReply}
use imooc_sock_core_tech.Loop.Run.{WaitReply}
use imooc_sock_core_tech.Loop.Api.{looper_create, looper_start}
use imooc_sock_core_tech.World.{Conn, Cmd, pure, ◌>>=◌, ◌>>◌, get, put, malloc, of_option}
use imooc_sock_core_tech.Transport.Tcp.{Net}
use imooc_sock_core_tech.Transport.Api.{io_create, io_listen, io_close}
use imooc_sock_core_tech.Conn.{io_operation_init}
use imooc_sock_core_tech.App.{looper_run}

abbrev pub default_port : ℕ
default_port = 9820

-- The port and the protocol that the server takes where none is given.
unfoldable pub server_defaults : Configuration → Configuration
server_defaults cfg = record cfg {
  port = if cfg.port == 0 then default_port else cfg.port;
  prototype = if cfg.prototype == 0 then nwc_proto_tcp else cfg.prototype;
}

module _ {D : Type 0} (ctl : EpollCtl) (net : Net) where
  -- `kind` is what `malloc` left in the type of a UDP handler.
  unfoldable pub server_start : (looper kind : ℕ) → Cmd D ℤ
  server_start looper kind = do
    w ← get
    op ← malloc
    w' ← get
    put (record w' {
      conn_hdr = [];
      listen_op = some (op, record io_operation_init { userdata = 0; on_accept = true });
    })
    handle ← io_create (some looper) (some op) w.cfg.prototype kind
    w'' ← get
    put (record w'' { listen_handle = handle })
    io ← of_option handle
    io_listen ctl net io w.cfg.port

  unfoldable pub server_stop : Cmd D ℤ
  server_stop = do
    w ← get
    io ← of_option w.listen_handle
    rc ← io_close ctl io
    w' ← get
    put (record w' { listen_op = none })
    pure (pos 0)

module _ {D : Type 0} (F : DoubleOps D) (ctl : EpollCtl) (fuel : ℕ) (memory : Conn D) where
  unfoldable pub server_main : Net → CreateReply → List WaitReply → (kind : ℕ) → Cmd D ℤ
  server_main net create_reply replies kind = do
    looper ← malloc
    rc ← λ s. done (looper_start (some looper) create_reply (looper_create s))
    if rc ==ℤ pos 0
        then (do
          w ← get
          let cfg = server_defaults w.cfg
          put (record w { cfg = cfg })
          if (cfg.prototype == nwc_proto_tcp) || (cfg.prototype == nwc_proto_udp)
              then (do
                rc' ← server_start ctl net looper kind
                if rc' ==ℤ pos 0
                    then (do
                      looper_run F ctl fuel memory replies (some looper)
                      rc'' ← server_stop ctl net
                      pure (pos 0))
                    else pure rc')
              else pure (negsuc 0))
        else pure rc
