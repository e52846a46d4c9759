-- ===== src/Conn/Send.antt =====
-- `nwc_connection_on_send` of 04-30_nwchecker_refactor/nwc_connection.c.
use imooc_sock_core_tech.Prelude.{ℕ, zero, suc, ◌+◌, ◌==◌, ltb, if◌then◌else◌}
use imooc_sock_core_tech.Prelude.Int.{ℤ, pos, nonpositive, ◌==ℤ◌, neg}
use imooc_sock_core_tech.Types.{u32, eagain, nwc_client}
use imooc_sock_core_tech.Outcome.{hang}
use imooc_sock_core_tech.Qos.{DoubleOps, create_package, stamp}
use imooc_sock_core_tech.Wire.{encode}
use imooc_sock_core_tech.Loop.{EpollCtl}
use imooc_sock_core_tech.World.{
  Cmd, pure, ◌>>=◌, ◌>>◌, get, of_option, load_conn, store_conn, malloc, read_clock,
}
use imooc_sock_core_tech.Transport.Api.{io_can_send, io_send}
use imooc_sock_core_tech.Conn.{connection_close}

abbrev pub package_len : ℕ
package_len = 1300

-- The value of a positive `int`.
abbrev pub to_u32 : ℤ → ℕ
to_u32 (pos n) = u32 n
to_u32 _ = 0

module _ {D : Type 0} (F : DoubleOps D) (ctl : EpollCtl) where
  -- Makes a package, enters it into the sent queue, stamps and sends it. `stale` is what the
  -- timestamp held before.
  unfoldable pub send_package : (nwc : ℕ) → Cmd D ℤ
  send_package nwc = do
    c ← load_conn nwc
    addr ← malloc
    w ← get
    let made = create_package F addr 0 w.junk package_len c.qos
    ts ← read_clock
    let qos = record (made.1) { sent_queue = stamp addr ts (made.1).sent_queue }
    store_conn nwc (record c { qos = qos })
    io ← of_option c.handle
    io_send io (encode (record (made.0) { timestamp = ts }))

  -- `while (cur_sentbytes < send_bandwidth)`; `rc` is the result so far.
  unfoldable pub send_loop : (fuel nwc cur_sentbytes : ℕ) (rc : ℤ) → Cmd D ℤ
  send_loop zero nwc cur rc = λ s. hang
  send_loop (suc k) nwc cur rc = do
    c ← load_conn nwc
    if ltb cur c.qos.send_bandwidth
        then (do
          rc' ← send_package nwc
          if nonpositive rc'
              then (if rc' ==ℤ neg eagain
                  then pure rc'
                  else (do connection_close ctl nwc; pure rc'))
              else send_loop k nwc (u32 (cur + to_u32 rc')) rc')
        else pure rc

  unfoldable pub connection_on_send : (fuel nwc : ℕ) → Cmd D ℤ
  connection_on_send fuel nwc = do
    c ← load_conn nwc
    io ← of_option c.handle
    can ← io_can_send io
    if can
        then (do
          w ← get
          if w.cfg.mode == nwc_client then send_loop fuel nwc 0 (pos 0) else pure (pos 0))
        else pure (pos 0)
