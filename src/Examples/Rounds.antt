-- ===== src/Examples/Rounds.antt =====
-- A round with the two workers of a connection.
use imooc_sock_core_tech.Prelude.{ℕ, ◌≡◌, refl, Bool, true, false, [], ◌∷◌, arith}
use imooc_sock_core_tech.Outcome.{Outcome, done}
use imooc_sock_core_tech.Qos.{
  qos_stat, window_over, sweep, overdue, create_package, stamp, milisecs, close_window,
}
use imooc_sock_core_tech.Loop.{Worker}
use imooc_sock_core_tech.Loop.Workers.{dispatch_worker}
use imooc_sock_core_tech.Loop.Dispatch.{call_each}
use imooc_sock_core_tech.World.{State, load_conn, read_clock, store_conn, load_io, malloc}
use imooc_sock_core_tech.Transport.Syscalls
use imooc_sock_core_tech.Transport.Syscalls.{sys_send}
use imooc_sock_core_tech.Transport.Tcp.{tcp_send}
use imooc_sock_core_tech.Transport.Api.{io_can_send, io_send}
use imooc_sock_core_tech.Conn.{connection_stat, stat_worker, send_worker}
use imooc_sock_core_tech.Conn.Send
use imooc_sock_core_tech.Conn.Send.{connection_on_send, send_package}
use imooc_sock_core_tech.App.{call_worker}
use imooc_sock_core_tech.App.Dispatching.{dispatch_worker-call_each}
use imooc_sock_core_tech.Examples.Data.{eighths, always_ok, kept_five, sending}

-- The workers that `nwc_connection_send` registers for the connection at 10.
abbrev stat_entry : Worker
stat_entry = record { addr = 7; userdata = 10; worker_do = stat_worker }

abbrev send_entry : Worker
send_entry = record { addr = 8; userdata = 10; worker_do = send_worker }

-- A client whose statistics and send turn are due.
abbrev due : State ℕ
due = record sending {
  worker_hdr = stat_entry ∷ send_entry ∷ [];
  user = record (sending.user) { clock = (4, 0) ∷ sending.user.clock };
}

dispatch_worker-call_each_example :
    dispatch_worker (call_worker eighths always_ok 9 kept_five) 3 due
    ≡ call_each (call_worker eighths always_ok 9 kept_five) (stat_entry ∷ send_entry ∷ []) due
dispatch_worker-call_each_example =
    dispatch_worker-call_each eighths always_ok 9 kept_five 3 due (refl, (refl, tt))
      (refl, (refl, tt)) (omega arith)

abbrev ends : {A : Type 0} → Outcome A → Bool
ends (done a) = true
ends _ = false

-- The round ends.
round_ends : ends (call_each (call_worker eighths always_ok 9 kept_five) due.worker_hdr due) ≡ true
unfolding call_worker connection_stat load_conn read_clock qos_stat window_over sweep overdue
    store_conn connection_on_send io_can_send load_io Send.send_loop send_package malloc io_send
    tcp_send sys_send Syscalls.send_loop create_package stamp milisecs close_window
round_ends = refl
