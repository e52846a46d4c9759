-- ===== src/App/Client.antt =====
-- 04-30_nwchecker_refactor/nwc_client.c and nwc_main.c
use Prim.Native.String.{String}
use imooc_sock_core_tech.Prelude.{
  ℕ, Bool, true, ◌||◌, Option, none, some, List, ◌==◌, ltb, if◌then◌else◌,
}
use imooc_sock_core_tech.Prelude.Int.{ℤ, pos, negsuc, neg, ◌==ℤ◌}
use imooc_sock_core_tech.Types.{nwc_proto_tcp, nwc_proto_udp, nwc_client, nwc_server, einprogress}
use imooc_sock_core_tech.Outcome.{done}
use imooc_sock_core_tech.Qos.{DoubleOps}
use imooc_sock_core_tech.Config.{Configuration, zero_configuration, configuration_parse}
use imooc_sock_core_tech.Loop.{EpollCtl}
use imooc_sock_core_tech.Loop.Epoll.{CreateReply}
use imooc_sock_core_tech.Loop.Run.{WaitReply}
use imooc_sock_core_tech.Loop.Api.{looper_create, looper_start, looper_stop}
use imooc_sock_core_tech.World.{
  Conn, Cmd, pure, ◌>>=◌, ◌>>◌, get, put, malloc, of_option, load_conn, store_conn,
}
use imooc_sock_core_tech.Transport.Tcp.{Net}
use imooc_sock_core_tech.Transport.Api.{io_create, io_connect}
use imooc_sock_core_tech.Conn.{connection_init, connection_send}
use imooc_sock_core_tech.App.{looper_run}
use imooc_sock_core_tech.App.Server.{server_main}

module _ {D : Type 0} (F : DoubleOps D) (ctl : EpollCtl) (fuel : ℕ) (memory : Conn D)
    (net : Net) where
  unfoldable pub client_start : (looper kind : ℕ) → Cmd D ℤ
  client_start looper kind = do
    conn ← malloc
    w ← get
    store_conn conn (connection_init F conn w.cfg memory)
    handle ← io_create (some looper) (some conn) w.cfg.prototype kind
    c ← load_conn conn
    store_conn conn (record c { handle = handle })
    io ← of_option handle
    rc ← io_connect ctl net io w.cfg.port
    if rc ==ℤ pos 0
        then (do sent ← connection_send conn; pure (pos 0))
        else (if rc ==ℤ neg einprogress then pure (pos 0) else pure rc)

  -- `!cfg->ip || !cfg->port`
  abbrev pub lacks_server : Configuration → Bool
  lacks_server cfg = elim (cfg.ip) [ none ↦ true | some _ ↦ cfg.port == 0 ]

  unfoldable pub client_main : CreateReply → List WaitReply → (kind : ℕ) → Cmd D ℤ
  client_main create_reply replies kind = do
    w ← get
    if lacks_server w.cfg then pure (negsuc 0) else (do
      looper ← malloc
      rc ← λ s. done (looper_start (some looper) create_reply (looper_create s))
      if rc ==ℤ pos 0
          then (do
            let prototype = if w.cfg.prototype == 0 then nwc_proto_tcp else w.cfg.prototype
            w' ← get
            put (record w' { cfg = record (w'.cfg) { prototype = prototype } })
            if (prototype == nwc_proto_tcp) || (prototype == nwc_proto_udp)
                then (do
                  rc' ← client_start looper kind
                  if rc' ==ℤ pos 0
                      then (do
                        looper_run F ctl fuel memory replies (some looper)
                        stopped ← λ s. done (looper_stop (some looper) s)
                        pure (pos 0))
                      else pure rc')
                else pure (negsuc 0))
          else pure rc)

  -- `main`; the result of a client is not returned. `none` is the exit in `usage()`.
  unfoldable pub main :
      (atoi : String → ℕ) (argc : ℕ) (options : List (ℕ × String))
      → CreateReply
      → List WaitReply
      → (kind : ℕ) → Cmd D (Option ℤ)
  main atoi argc options create_reply replies kind =
      if ltb argc 2
      then pure (some (negsuc 0))
      else elim (configuration_parse atoi options zero_configuration) [
        | none ↦ pure none
        | some cfg ↦ do
          w ← get
          put (record w { cfg = cfg })
          if cfg.mode == nwc_client
              then (do rc ← client_main create_reply replies kind; pure (some (pos 0)))
              else (if cfg.mode == nwc_server
                  then (do
                    rc ← server_main F ctl fuel memory net create_reply replies kind
                    pure (some rc))
                  else pure (some (pos 0)))
      ]
