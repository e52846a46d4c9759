-- ===== src/Conn/Receive.antt =====
-- `nwc_connection_on_recv` of 04-30_nwchecker_refactor/nwc_connection.c.
use imooc_sock_core_tech.Prelude.{
  ℕ, zero, suc, ◌+◌, ◌-◌, Bool, true, false, ◌&&◌, not, List, [], ◌++◌, ◌==◌, ltb, if◌then◌else◌,
  length, take, drop,
}
use imooc_sock_core_tech.Prelude.Int.{ℤ, pos, neg, ◌==ℤ◌, nonpositive}
use imooc_sock_core_tech.Types.{u32, sub32, eagain, nwc_server}
use imooc_sock_core_tech.Outcome.{hang}
use imooc_sock_core_tech.Qos.{DoubleOps, QosHdr, qos_hdr_len, create_ack_package, process_package}
use imooc_sock_core_tech.Wire.{encode, read_hdr}
use imooc_sock_core_tech.Loop.{EpollCtl}
use imooc_sock_core_tech.World.{
  Cmd, pure, failing, ◌>>=◌, ◌>>◌, get, of_option, load_conn, store_conn, read_clock,
}
use imooc_sock_core_tech.Transport.Api.{io_can_send, io_recv, io_send}
use imooc_sock_core_tech.Conn.{recv_buffer_len, connection_close}

-- A result of a send after which the connection is closed.
abbrev pub is_broken : ℤ → Bool
is_broken rc = nonpositive rc && not (rc ==ℤ neg eagain)

module _ {D : Type 0} (F : DoubleOps D) (ctl : EpollCtl) where
  -- The server's reply to a package; `true` is the `break` behind a failed send.
  unfoldable pub answer : (nwc io recv_ts : ℕ) → QosHdr → Cmd D Bool
  answer nwc io recv_ts pkg = do
    nowms ← read_clock
    let ack = create_ack_package F 0 pkg.timestamp
    rc ← io_send io (encode (record ack { recv_delay = sub32 nowms recv_ts; timestamp = nowms }))
    if is_broken rc then (do connection_close ctl nwc; pure true) else pure false

  -- One turn of `while (1)` with `rbytes` bytes to go, which begin `bytes`: what is left at a
  -- `break`, or the turn's end by `next`, which goes on with what is left.
  unfoldable pub receive_turn :
      (nwc recv_ts rbytes : ℕ) (bytes : List ℕ) (next : ℕ → List ℕ → Cmd D (ℕ × List ℕ))
      → Cmd D (ℕ × List ℕ)
  receive_turn nwc recv_ts rbytes bytes next =
      if ltb rbytes qos_hdr_len then pure (rbytes, bytes) else (do
        pkg ← of_option (read_hdr bytes)
        if ltb rbytes (u32 (qos_hdr_len + pkg.length)) then pure (rbytes, bytes) else (do
          let rest = drop (qos_hdr_len + pkg.length) bytes
          let left = rbytes - u32 (qos_hdr_len + pkg.length)
          c ← load_conn nwc
          w ← get
          if w.cfg.mode == nwc_server
              then (do
                io ← of_option c.handle
                can ← io_can_send io
                if can
                    then (do
                      broke ← answer nwc io recv_ts pkg
                      if broke then pure (rbytes, bytes) else next left rest)
                    else next rbytes bytes)
              else (do
                store_conn nwc (record c { qos = process_package F pkg recv_ts c.qos })
                next left rest)))

  unfoldable pub receive_loop : (fuel nwc recv_ts rbytes : ℕ) (bytes : List ℕ) → Cmd D (ℕ × List ℕ)
  receive_loop zero nwc recv_ts rbytes bytes = λ s. hang
  receive_loop (suc k) nwc recv_ts rbytes bytes =
      receive_turn nwc recv_ts rbytes bytes (receive_loop k nwc recv_ts)

  -- The `memmove` behind the loop, or the reset; a move from behind the buffer's end is a fault.
  unfoldable pub keep_rest : (nwc rbytes : ℕ) (rest : List ℕ) → Cmd D (Unit {0})
  keep_rest nwc rbytes rest = do
    c ← load_conn nwc
    if rbytes == 0
        then store_conn nwc (record c { rbytes = 0; recv_buff = [] })
        else (if ltb (length rest) rbytes
            then failing
            else store_conn nwc (record c { rbytes = rbytes; recv_buff = take rbytes rest }))

  unfoldable pub connection_on_recv : (fuel nwc : ℕ) → Cmd D ℤ
  connection_on_recv fuel nwc = do
    c ← load_conn nwc
    io ← of_option c.handle
    r ← io_recv io (sub32 recv_buffer_len c.rbytes)
    if nonpositive r.0
        then (if r.0 ==ℤ neg eagain then pure (pos 0) else (do connection_close ctl nwc; pure r.0))
        else (do
          recv_ts ← read_clock
          left ← receive_loop fuel nwc recv_ts (length r.1 + c.rbytes) (c.recv_buff ++ r.1)
          keep_rest nwc left.0 left.1
          pure (pos 0))
