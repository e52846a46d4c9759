-- ===== src/Transport/Closing.antt =====
-- What `nwc_tcp_handler_close` does (nwc_tcp_handler.c).
use Prim.Native.Nat.{bit_and}
use imooc_sock_core_tech.Prelude.{
  ℕ, ◌-◌, ◌^◌, ◌≡◌, ◌≢◌, refl, some, [], ◌∷◌, ◌++◌, arith, Option-cases,
}
use imooc_sock_core_tech.Prelude.Int.{ℤ, pos, negsuc}
use imooc_sock_core_tech.Types.{em_all}
use imooc_sock_core_tech.Outcome.{done}
use imooc_sock_core_tech.Loop.{EpollEntry, CtlCall, ctl_mod, ctl_del, EpollCtl}
use imooc_sock_core_tech.Loop.Epoll.{
  find_entry, put_entry, epoll_events, entry_at, set_entry, epoll_ctl, epoll_cancel_event,
  epoll_remove_handler,
}
use imooc_sock_core_tech.Loop.Api.{looper_cancel_event, looper_remove_handler}
use imooc_sock_core_tech.Loop.Registration.{find_entry-addr, find_entry-put}
use imooc_sock_core_tech.Io.{IoHandler, TcpState, tcp_handler, nts_closed}
use imooc_sock_core_tech.World.{State, load_io, store_io, close_fd, update}
use imooc_sock_core_tech.Transport.Tcp.{tcp_close}

module _ {D : Type 0} where
  module _ (ctl : EpollCtl) where
    -- A close of a TCP handler that ends, in whatever state the handler was, returns 0, and a
    -- second close after it returns 0 too and changes nothing, so that no descriptor is closed
    -- twice.
    pub tcp_close-twice :
        (io : ℕ) (rc : ℤ) (s t : State D)
        → tcp_close ctl io s ≡ done (rc, t)
        → (rc ≡ pos 0) × (tcp_close ctl io t ≡ done (pos 0, t))
    unfolding tcp_close load_io store_io close_fd
    tcp_close-twice io rc s t e = ground (arith, Option-cases (s.user.ios io))

    cancel_all :
        (l a : ℕ) (entry : EpollEntry) (s : State D)
        → find_entry a s.entries ≡ some entry
        → (rc : ℤ) × (s' : State D) × (looper_cancel_event ctl (some l) (some a) em_all s
            ≡ done (rc, s'))
          × (s'.user ≡ s.user)
          × (s'.removed_epoll_entrys ≡ s.removed_epoll_entrys)
          × (find_entry a s'.entries
              ≡ some (record entry { mask = bit_and entry.mask (2 ^ 32 - 1 - em_all) }))
    unfolding looper_cancel_event epoll_cancel_event entry_at epoll_ctl set_entry
    cancel_all l a entry s found =
        let entry' : EpollEntry = record entry {
          mask = bit_and entry.mask (2 ^ 32 - 1 - em_all);
        } in
        let call : CtlCall = record {
          op = ctl_mod;
          entry = entry.addr;
          fd = entry.fd;
          events = epoll_events entry'.mask;
        } in
        let addr = find_entry-addr a s.entries entry found in
        (
          pos (ctl s.ctl_calls call),
          record s { entries = put_entry entry' s.entries; ctl_calls = call ∷ s.ctl_calls },
          ground (arith, found),
          refl,
          refl,
          ground
              (arith, addr, find_entry-put a s.entries entry entry' (ground (arith, addr, found))),
        )

    remove_it :
        (l a : ℕ) (entry : EpollEntry) (s : State D)
        → find_entry a s.entries ≡ some entry
        → (rc : ℤ) × (s' : State D) × (looper_remove_handler ctl (some l) (some a) s
            ≡ done (rc, s'))
          × (s'.user ≡ s.user)
          × (s'.removed_epoll_entrys ≡ s.removed_epoll_entrys ++ a ∷ [])
          × (find_entry a s'.entries ≡ some (record entry { mask = 0; fd = negsuc 0 }))
    unfolding looper_remove_handler epoll_remove_handler entry_at epoll_ctl set_entry
    remove_it l a entry s found =
        let entry' : EpollEntry = record entry { mask = 0; fd = negsuc 0 } in
        let call : CtlCall = record {
          op = ctl_del;
          entry = entry.addr;
          fd = entry.fd;
          events = epoll_events 0;
        } in
        let addr = find_entry-addr a s.entries entry found in
        (
          pos (ctl s.ctl_calls call),
          record s {
            entries = put_entry entry' s.entries;
            ctl_calls = call ∷ s.ctl_calls;
            removed_epoll_entrys = s.removed_epoll_entrys ++ a ∷ [];
          },
          ground (arith, found),
          refl,
          refl,
          ground
              (arith, addr, find_entry-put a s.entries entry entry' (ground (arith, addr, found))),
        )

    -- Closing a TCP handler that is not closed and has an allocated entry ends and returns 0,
    -- whatever `epoll_ctl` answers: the descriptor is closed once, the handler is closed and has no
    -- descriptor, and the entry waits for no event, has no descriptor, and is in the list of
    -- removed entries.
    pub tcp_close-releases :
        (io l a : ℕ) (h : IoHandler) (state : TcpState) (entry : EpollEntry) (s : State D)
        → s.user.ios io ≡ some (tcp_handler h state)
        → state ≢ nts_closed
        → h.looper ≡ some l
        → h.h_handle ≡ some a
        → find_entry a s.entries ≡ some entry
        → (t : State D) × (tcp_close ctl io s ≡ done (pos 0, t))
          × (t.user.closed_fds ≡ h.fd ∷ s.user.closed_fds)
          × (t.user.ios io ≡ some (tcp_handler (record h { fd = negsuc 0 }) nts_closed))
          × (t.removed_epoll_entrys ≡ s.removed_epoll_entrys ++ a ∷ [])
          × (find_entry a t.entries ≡ some (record entry { mask = 0; fd = negsuc 0 }))
    unfolding tcp_close load_io store_io close_fd
    tcp_close-releases io l a h state entry s handler live looper handle found =
        let s0 : State D = record s {
          user = record (s.user) { ios = update s.user.ios io (some (tcp_handler h nts_closed)) };
        } in
        let (rc1, s1, cancelled, user1, removed1, entry1) = cancel_all l a entry s0 found in
        let (rc2, s2, removed, user2, removed2, entry2) =
          remove_it l a (record entry { mask = bit_and entry.mask (2 ^ 32 - 1 - em_all) }) s1
            entry1 in
        let t : State D = record s2 {
          user = record (s2.user) {
            closed_fds = h.fd ∷ s2.user.closed_fds;
            ios =
                update s2.user.ios io (some (tcp_handler (record h { fd = negsuc 0 }) nts_closed));
          };
        } in
        (
          t,
          ground (arith, handler, live, looper, handle, cancelled, removed),
          ground (arith, user1, user2),
          ground arith,
          ground (arith, removed1, removed2),
          entry2,
        )
