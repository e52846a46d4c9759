-- ===== src/Conn.antt =====
-- Connections: 04-30_nwchecker_refactor/nwc_connection.c and .h. This file has the setup, the
-- connection list and the close; Receive, Send and Accept have the traffic.
pub mod Receive
pub mod Send
pub mod Accept
pub mod Budget
pub mod Closing
pub mod Stream
pub mod Spin
pub mod Peers
pub mod Sending
pub mod Replies
pub mod Answering
pub mod Datagrams
pub mod Exchange
use imooc_sock_core_tech.Prelude.{
  ℕ, ◌+◌, ◌/◌, Bool, true, false, ◌&&◌, Option, none, some, List, [], ◌∷◌, ◌++◌, ◌==◌,
  if◌then◌else◌,
}
use imooc_sock_core_tech.Prelude.Int.{ℤ, pos}
use imooc_sock_core_tech.Types.{NwcHandle, u32, nwc_client, invalid_handle}
use imooc_sock_core_tech.Outcome.{done}
use imooc_sock_core_tech.Qos.{DoubleOps, qos_init, qos_stat}
use imooc_sock_core_tech.Config.{Configuration}
use imooc_sock_core_tech.Loop.{EpollCtl}
use imooc_sock_core_tech.Loop.Api.{looper_register_worker, looper_cancel_worker}
use imooc_sock_core_tech.World.{
  SockAddr, IoOperation, Conn, Cmd, pure, ◌>>=◌, ◌>>◌, of_option, load_conn, store_conn, free_conn,
  malloc, read_clock,
}
use imooc_sock_core_tech.Transport.Api.{io_get_looper, io_close}

-- `RECV_BUFFER_LEN`
abbrev pub recv_buffer_len : ℕ
recv_buffer_len = 4096

-- The addresses of `nwc_connection_stat` and `nwc_connection_on_send`.
abbrev pub stat_worker : ℕ
stat_worker = 1

abbrev pub send_worker : ℕ
send_worker = 2

-- `nwc_io_operation_init`
unfoldable pub io_operation_init : IoOperation
io_operation_init = record {
  userdata = 0;
  on_accept = false;
  on_connect = false;
  on_recv = false;
  on_send = false;
}

-- The bytes to send in each twentieth of a second.
unfoldable pub send_budget : (bandwidth : ℕ) → ℕ
send_budget bandwidth =
    let bd = if bandwidth == 0 then 125000 else bandwidth / 8 in u32 (bd + 19) / 20

abbrev pub same_addr : SockAddr → SockAddr → Bool
same_addr a b = (a.sin_port == b.sin_port) && (a.s_addr == b.s_addr)

-- `list_del` on the connection list as a sequence.
unfoldable pub without : ℕ → List ℕ → List ℕ
without a [] = []
without a (b ∷ bs) = if b == a then bs else b ∷ without a bs

module _ {D : Type 0} (F : DoubleOps D) where
  -- `nwc_connection_init` of the connection at `nwc`.
  unfoldable pub connection_init : (nwc : ℕ) → Configuration → Conn D → Conn D
  connection_init nwc cfg memory =
      let qos = qos_init F memory.qos in
      record {
        op = record io_operation_init {
          userdata = nwc;
          on_connect = true;
          on_recv = true;
          on_send = true;
        };
        qos =
            if cfg.mode == nwc_client
            then record qos { send_bandwidth = send_budget cfg.bandwidth }
            else qos;
        handle = invalid_handle;
        cliaddr = record { sin_port = 0; s_addr = 0 };
        recv_buff = [];
        rbytes = 0;
        stat_wk_handle = invalid_handle;
        send_wk_handle = invalid_handle;
      }

  -- The worker `nwc_connection_stat`. A division by zero is a fault.
  unfoldable pub connection_stat : (nwc : ℕ) → Cmd D ℤ
  connection_stat nwc = do
    c ← load_conn nwc
    nowms ← read_clock
    r ← of_option (qos_stat F nowms c.qos)
    store_conn nwc (record c { qos = r.0 })
    pure (pos 0)

module _ {D : Type 0} where
  -- `alloc_nwc_conn_arg0`, at what `malloc` returned, over what it left there.
  unfoldable pub alloc_conn : Conn D → Conn D
  alloc_conn memory = record memory { rbytes = 0; recv_buff = [] }

  -- `nwc_connection_send`: registers the two workers of the connection.
  unfoldable pub connection_send : (nwc : ℕ) → Cmd D ℤ
  connection_send nwc = do
    c ← load_conn nwc
    io ← of_option c.handle
    looper ← io_get_looper io
    wk ← malloc
    stat ← λ s. done (looper_register_worker looper wk nwc stat_worker s)
    store_conn nwc (record c { stat_wk_handle = stat })
    looper' ← io_get_looper io
    wk' ← malloc
    send ← λ s. done (looper_register_worker looper' wk' nwc send_worker s)
    store_conn nwc (record c { stat_wk_handle = stat; send_wk_handle = send })
    pure (pos 0)

  unfoldable pub connection_on_connect : (nwc : ℕ) → Cmd D ℤ
  connection_on_connect nwc = connection_send nwc

  -- The end of `nwc_connection_close`, from the first `nwc_looper_cancel_worker` on.
  unfoldable pub close_workers : (nwc : ℕ) → Conn D → (io : ℕ) → NwcHandle → Cmd D (Unit {0})
  close_workers nwc c io looper = do
    r1 ← λ s. done (looper_cancel_worker looper c.stat_wk_handle s)
    looper' ← io_get_looper io
    r2 ← λ s. done (looper_cancel_worker looper' c.send_wk_handle s)
    free_conn nwc

  -- `nwc_io_close` frees the handler that the next lines ask for its looper.
  unfoldable pub connection_close : EpollCtl → (nwc : ℕ) → Cmd D (Unit {0})
  connection_close ctl nwc = do
    c ← load_conn nwc
    io ← of_option c.handle
    rc ← io_close ctl io
    looper ← io_get_looper io
    close_workers nwc c io looper

  -- `get_nwc_connection` over the nodes of the list.
  unfoldable pub get_connection : List ℕ → SockAddr → Cmd D (Option ℕ)
  get_connection [] addr = pure none
  get_connection (nwc ∷ rest) addr = do
    c ← load_conn nwc
    if same_addr c.cliaddr addr then pure (some nwc) else get_connection rest addr

  unfoldable pub add_nwc_tail : (nwc : ℕ) → Cmd D (Unit {0})
  add_nwc_tail nwc s =
      done (tt, record s { user = record (s.user) { conn_hdr = s.user.conn_hdr ++ nwc ∷ [] } })

  unfoldable pub remove_nwc : (nwc : ℕ) → Cmd D (Unit {0})
  remove_nwc nwc s =
      done (tt, record s { user = record (s.user) { conn_hdr = without nwc s.user.conn_hdr } })

  unfoldable pub free_all : List ℕ → Cmd D (Unit {0})
  free_all [] = pure tt
  free_all (nwc ∷ rest) = free_conn nwc >> free_all rest

  -- `destroy_all_nwc` frees the connections and leaves them in the list.
  unfoldable pub destroy_all_nwc : Cmd D (Unit {0})
  destroy_all_nwc s = free_all s.user.conn_hdr s
