-- ===== src/Examples/Handlers.antt =====
-- The TCP handler: closing and interrupted calls.
use imooc_sock_core_tech.Prelude.{ℕ, ◌≡◌, ◌≢◌, refl, none, some, List, [], ◌∷◌, ◌==◌, if◌then◌else◌}
use imooc_sock_core_tech.Prelude.Int.{pos, negsuc}
use imooc_sock_core_tech.Outcome.{done}
use imooc_sock_core_tech.Io.{IoHandler, tcp_handler, nts_established, nts_closed}
use imooc_sock_core_tech.World.{State, RecvReply, received, update, load_io, store_io, close_fd}
use imooc_sock_core_tech.Loop.{EpollEntry}
use imooc_sock_core_tech.Loop.Epoll.{find_entry}
use imooc_sock_core_tech.Loop.Api.{looper_cancel_event, looper_remove_handler}
use imooc_sock_core_tech.Transport.Tcp.{tcp_close}
use imooc_sock_core_tech.Transport.Receiving.{interrupted}
use imooc_sock_core_tech.Transport.Closing.{tcp_close-releases}
use imooc_sock_core_tech.Examples.Data.{always_ok, tcp_io, sending, no_world, idle}

abbrev closing : State ℕ
closing = record sending {
  user = record (sending.user) {
    ios =
        update (update sending.user.ios 20 (some (tcp_handler tcp_io nts_closed))) 20
          (some (tcp_handler (record tcp_io { fd = negsuc 0 }) nts_closed));
    closed_fds = pos 4 ∷ [];
  };
}

close_open : tcp_close always_ok 20 sending ≡ done (pos 0, closing)
unfolding tcp_close load_io store_io close_fd looper_cancel_event looper_remove_handler
close_open = refl

abbrev two_interrupts : List RecvReply
two_interrupts = interrupted 2 (received (1 ∷ []) ∷ [])

-- An established connection with its entry.
abbrev registered_io : IoHandler
registered_io = record tcp_io { looper = some 3; h_handle = some 30 }

abbrev entry_30 : EpollEntry
entry_30 = record { addr = 30; mask = 1; fd = pos 4; eh = 20 }

abbrev established : State ℕ
established =
    record (idle (record no_world {
      ios = λ p. if p == 20 then some (tcp_handler registered_io nts_established) else none;
    })) { entries = entry_30 ∷ [] }

is_open : nts_established ≢ nts_closed
is_open e = cc

tcp_close-releases_example :
    (t : State ℕ) × (tcp_close always_ok 20 established ≡ done (pos 0, t))
    × (t.user.closed_fds ≡ pos 4 ∷ [])
    × (t.user.ios 20 ≡ some (tcp_handler (record registered_io { fd = negsuc 0 }) nts_closed))
    × (t.removed_epoll_entrys ≡ 30 ∷ [])
    × (find_entry 30 t.entries ≡ some (record entry_30 { mask = 0; fd = negsuc 0 }))
tcp_close-releases_example =
    tcp_close-releases always_ok 20 3 30 registered_io nts_established entry_30 established refl
      is_open refl refl (unfold find_entry in refl)
