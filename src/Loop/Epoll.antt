-- ===== src/Loop/Epoll.antt =====
-- 04-30_nwchecker_refactor/nwc_epoll_looper.c without its loop: the entries and their registration
-- with `epoll_ctl`. An operation on a handle that names no allocated entry is a fault.
use Prim.Native.Nat.{bit_and, bit_or}
use imooc_sock_core_tech.Prelude.{
  ℕ, ◌-◌, ◌^◌, Bool, not, Option, none, some, List, [], ◌∷◌, ◌++◌, ◌==◌, if◌then◌else◌,
}
use imooc_sock_core_tech.Prelude.Int.{ℤ, pos, negsuc}
use imooc_sock_core_tech.Types.{NwcHandle, invalid_handle, em_read, em_write}
use imooc_sock_core_tech.Outcome.{Outcome, done, fault, ◌>>=◌}
use imooc_sock_core_tech.Loop.{
  EpollEntry, CtlOp, ctl_add, ctl_mod, ctl_del, CtlCall, Loop, EpollCtl,
}
use imooc_sock_core_tech.Loop.Workers.{looper_init}

abbrev pub epollin : ℕ
epollin = 1

abbrev pub epollout : ℕ
epollout = 4

abbrev pub epollerr : ℕ
epollerr = 8

abbrev pub epollhup : ℕ
epollhup = 16

abbrev pub epollrdhup : ℕ
epollrdhup = 0x2000

-- `a & b`, as a condition.
abbrev pub test_bits : ℕ → ℕ → Bool
test_bits a b = not (bit_and a b == 0)

unfoldable pub find_entry : ℕ → List EpollEntry → Option EpollEntry
find_entry a [] = none
find_entry a (e ∷ es) = if e.addr == a then some e else find_entry a es

-- The entry in the place of the one that has its address.
unfoldable pub put_entry : EpollEntry → List EpollEntry → List EpollEntry
put_entry new [] = []
put_entry new (e ∷ es) = if e.addr == new.addr then new ∷ es else e ∷ put_entry new es

unfoldable pub free_entry : ℕ → List EpollEntry → List EpollEntry
free_entry a [] = []
free_entry a (e ∷ es) = if e.addr == a then es else e ∷ free_entry a es

-- `ev.events` from the mask of the entry.
unfoldable pub epoll_events : (mask : ℕ) → ℕ
epoll_events mask =
    let events = if test_bits mask em_read then epollin else 0 in
    if test_bits mask em_write then bit_or events epollout else events

-- The answers of `epoll_create`: a descriptor, or -1 with an error number.
pub data CreateReply : Type 0 where
  created : ℕ → CreateReply
  create_failed : (errno : ℕ) → CreateReply

module _ {U : Type 0} where
  -- The fields that `nwc_epoll_init` sets; the function pointers of the parent are the functions
  -- of this module and of `Workers`.
  unfoldable pub epoll_init : Loop U → Loop U
  unfolding looper_init
  epoll_init looper = record (looper_init looper) {
    epfd = negsuc 0;
    exit = 1;
    timeout_interval = negsuc 0;
    removed_epoll_entrys = [];
  }

  unfoldable pub epoll_start : CreateReply → Loop U → ℕ × Loop U
  epoll_start (create_failed errno) looper = (errno, record looper { epfd = negsuc 0 })
  epoll_start (created fd) looper = (0, record looper { epfd = pos fd; exit = 0 })

  unfoldable pub epoll_stop : Loop U → ℕ × Loop U
  epoll_stop looper = (0, record looper { exit = 1 })

  -- `*entry`
  unfoldable pub entry_at : ℕ → Loop U → Outcome EpollEntry
  unfolding find_entry
  entry_at a looper = elim (find_entry a looper.entries) [ none ↦ fault | some e ↦ done e ]

  -- `*entry = …`
  unfoldable pub set_entry : EpollEntry → Loop U → Loop U
  unfolding put_entry
  set_entry e looper = record looper { entries = put_entry e looper.entries }

  module _ (ctl : EpollCtl) where
    -- `__nwc_epoll_ctl`: 0 or the error number.
    unfoldable pub epoll_ctl : EpollEntry → CtlOp → Loop U → ℕ × Loop U
    unfolding epoll_events
    epoll_ctl entry op looper =
        let call : CtlCall = record {
          op = op;
          entry = entry.addr;
          fd = entry.fd;
          events = epoll_events entry.mask;
        } in
        (ctl looper.ctl_calls call, record looper { ctl_calls = call ∷ looper.ctl_calls })

    -- `entry` is what `malloc` returns, `none` for NULL; `handler` and `fd` are the handler's
    -- address and its field.
    unfoldable pub epoll_add_handler :
        (entry : Option ℕ) (handler : ℕ) (fd : ℤ) → Loop U → NwcHandle × Loop U
    unfolding epoll_ctl
    epoll_add_handler none handler fd looper = (invalid_handle, looper)
    epoll_add_handler (some a) handler fd looper =
        let entry : EpollEntry = record { addr = a; mask = 0; fd = fd; eh = handler } in
        let (rc, looper') = epoll_ctl entry ctl_add looper in
        if rc == 0
        then (some a, record looper' { entries = entry ∷ looper'.entries })
        else (invalid_handle, looper')

    -- The entry stays allocated; its descriptor becomes `INVALID_HANDLE`.
    unfoldable pub epoll_remove_handler : ℕ → Loop U → Outcome (ℕ × Loop U)
    unfolding entry_at epoll_ctl set_entry
    epoll_remove_handler handle looper = do
      entry ← entry_at handle looper
      let cleared = record entry { mask = 0 }
      let (rc, looper') = epoll_ctl cleared ctl_del looper
      let looper'' = set_entry (record cleared { fd = negsuc 0 }) looper'
      done (
        rc,
        record looper'' { removed_epoll_entrys = looper''.removed_epoll_entrys ++ handle ∷ [] },
      )

    unfoldable pub epoll_register_event : ℕ → (events : ℕ) → Loop U → Outcome (ℕ × Loop U)
    unfolding entry_at epoll_ctl set_entry
    epoll_register_event handle events looper = do
      entry ← entry_at handle looper
      let entry' = record entry { mask = bit_or entry.mask events }
      done (epoll_ctl entry' ctl_mod (set_entry entry' looper))

    -- `~events` at 32 bits
    unfoldable pub epoll_cancel_event : ℕ → (events : ℕ) → Loop U → Outcome (ℕ × Loop U)
    unfolding entry_at epoll_ctl set_entry
    epoll_cancel_event handle events looper = do
      entry ← entry_at handle looper
      let entry' = record entry { mask = bit_and entry.mask (2 ^ 32 - 1 - events) }
      done (epoll_ctl entry' ctl_mod (set_entry entry' looper))
