-- ===== src/Io.antt =====
-- The I/O handlers: nwc_io_handler.h, and the types and initialisers of nwc_tcp_handler and
-- nwc_udp_handler (04-30_nwchecker_refactor). A function pointer is NULL or names the protocol
-- whose function it points to.
use imooc_sock_core_tech.Prelude.{ℕ, Bool, true, Option, none, some}
use imooc_sock_core_tech.Prelude.Int.{ℤ, negsuc}
use imooc_sock_core_tech.Types.{NwcHandle, invalid_handle}

pub data Proto : Type 0 where
  tcp udp : Proto

-- `enum NWC_TCP_STATE`
pub data TcpState : Type 0 where
  nts_closed nts_listen nts_connecting nts_established : TcpState

pub record IoHandler : Type 0 where
  pub handle_input : Option Proto
  pub handle_output : Option Proto
  pub listen : Option Proto
  pub connect : Option Proto
  pub send : Option Proto
  pub recv : Option Proto
  pub sendto : Option Proto
  pub recvfrom : Option Proto
  pub close : Option Proto
  pub looper : NwcHandle
  pub fd : ℤ
  pub h_handle : NwcHandle
  pub ioop : Option ℕ
  pub can_send : Bool

-- `nwc_io_handler_init`; the pointer `accept` is neither set nor called anywhere.
abbrev pub io_handler_init : IoHandler
io_handler_init = record {
  handle_input = none;
  handle_output = none;
  listen = none;
  connect = none;
  send = none;
  recv = none;
  sendto = none;
  recvfrom = none;
  close = none;
  looper = invalid_handle;
  fd = negsuc 0;
  h_handle = invalid_handle;
  ioop = none;
  can_send = true;
}

-- `struct nwc_tcp_handler` or `struct nwc_udp_handler`, each with its parent first. The number is
-- the UDP handler's `type`.
pub data Handler : Type 0 where
  tcp_handler : IoHandler → TcpState → Handler
  udp_handler : IoHandler → ℕ → Handler

abbrev pub parent : Handler → IoHandler
parent (tcp_handler h state) = h
parent (udp_handler h kind) = h

abbrev pub set_parent : IoHandler → Handler → Handler
set_parent h (tcp_handler _ state) = tcp_handler h state
set_parent h (udp_handler _ kind) = udp_handler h kind

abbrev pub udp_server : ℕ
udp_server = 1

abbrev pub udp_client : ℕ
udp_client = 2

unfoldable pub tcp_handler_init : Handler
tcp_handler_init =
    tcp_handler
      (record io_handler_init {
        handle_input = some tcp;
        handle_output = some tcp;
        listen = some tcp;
        connect = some tcp;
        send = some tcp;
        recv = some tcp;
        close = some tcp;
      })
      nts_closed

-- `kind` is what `malloc` left in the field `type`, which is not set here.
unfoldable pub udp_handler_init : (kind : ℕ) → Handler
udp_handler_init kind =
    udp_handler
      (record io_handler_init {
        handle_input = some udp;
        handle_output = some udp;
        listen = some udp;
        connect = some udp;
        send = some udp;
        sendto = some udp;
        recv = some udp;
        recvfrom = some udp;
        close = some udp;
      })
      kind
