-- ===== src/Examples/Connecting.antt =====
-- A client in the middle of a connection attempt.
use imooc_sock_core_tech.Prelude.{ℕ, ◌≡◌, refl, true, none, some, [], ◌∷◌, ◌==◌, if◌then◌else◌}
use imooc_sock_core_tech.Prelude.Int.{pos}
use imooc_sock_core_tech.Types.{em_write, em_all}
use imooc_sock_core_tech.Outcome.{done}
use imooc_sock_core_tech.Loop.{EpollEntry, ctl_mod}
use imooc_sock_core_tech.Loop.Api.{looper_cancel_event}
use imooc_sock_core_tech.Io.{IoHandler, tcp_handler, nts_connecting, nts_established}
use imooc_sock_core_tech.World.{Conn, State}
use imooc_sock_core_tech.Transport.Input.{tcp_handle_output}
use imooc_sock_core_tech.App.{callbacks}
use imooc_sock_core_tech.App.Connecting.{two_workers, tcp_handle_output-connects}
use imooc_sock_core_tech.Examples.Data.{eighths, always_ok, kept_five, tcp_io, no_world, idle}

abbrev connecting_io : IoHandler
connecting_io = record tcp_io { ioop = some 10; looper = some 3; h_handle = some 30 }

abbrev notified : Conn ℕ
notified = record kept_five { op = record (kept_five.op) { userdata = 10; on_connect = true } }

abbrev entry_30 : EpollEntry
entry_30 = record { addr = 30; mask = em_all; fd = pos 4; eh = 20 }

abbrev connecting : State ℕ
connecting =
    record (idle (record no_world {
      ios = λ p. if p == 20 then some (tcp_handler connecting_io nts_connecting) else none;
      conns = λ p. if p == 10 then some notified else none;
      sock_errors = 0 ∷ [];
    })) { entries = entry_30 ∷ [] }

-- The loop when it waits for data only.
abbrev reading : State ℕ
reading = record connecting {
  entries = record entry_30 { mask = 1 } ∷ [];
  ctl_calls = record { op = ctl_mod; entry = 30; fd = pos 4; events = 1 } ∷ [];
}

cancel_write :
    looper_cancel_event always_ok (some 3) (some 30) em_write connecting ≡ done (pos 0, reading)
unfolding looper_cancel_event
cancel_write = refl

tcp_handle_output-connects_example :
    (t : State ℕ) × (tcp_handle_output always_ok
        (callbacks eighths always_ok 5 kept_five)
        20
        connecting
      ≡ done (tt, t))
    × (t.user.ios 20 ≡ some (tcp_handler connecting_io nts_established))
    × (t.worker_hdr ≡ two_workers 10 50 51)
tcp_handle_output-connects_example =
    tcp_handle_output-connects eighths always_ok 5 kept_five 20 10 3 notified connecting_io (pos 0)
      connecting reading [] refl refl refl refl refl refl refl refl cancel_write
