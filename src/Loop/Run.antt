-- ===== src/Loop/Run.antt =====
-- `nwc_epoll_run` of 04-30_nwchecker_refactor/nwc_epoll_looper.c. The answers of `epoll_wait` are a
-- list; the callbacks, reached through function pointers, are parameters.
use imooc_sock_core_tech.Prelude.{ℕ, Bool, true, false, List, [], ◌∷◌, ◌==◌, if◌then◌else◌}
use Prim.Native.Nat.{bit_or}
use imooc_sock_core_tech.Prelude.Int.{negsuc, ◌==ℤ◌}
use imooc_sock_core_tech.Types.{eintr}
use imooc_sock_core_tech.Outcome.{Outcome, done, ◌>>=◌}
use imooc_sock_core_tech.Loop.{EpollEntry, Loop}
use imooc_sock_core_tech.Loop.Workers.{dispatch_worker, delete_removed_worker}
use imooc_sock_core_tech.Loop.Epoll.{
  epollin, epollout, epollerr, epollhup, epollrdhup, test_bits, entry_at, free_entry,
}

-- One element of `ev_list`.
pub record Ready : Type 0 where
  pub ptr : ℕ
  pub events : ℕ

pub data WaitReply : Type 0 where
  ready : List Ready → WaitReply
  wait_failed : (errno : ℕ) → WaitReply

-- How a run ends: `exit` was set and the epoll descriptor is closed, `epoll_wait` failed, or the
-- answers are used up and the loop waits on.
pub data Ended (U : Type 0) : Type 0 where
  exited : Loop U → Ended U
  wait_error : (errno : ℕ) → Loop U → Ended U
  waiting : Loop U → Ended U

module _ {U : Type 0} where
  unfoldable pub free_entries : List ℕ → Loop U → Loop U
  unfolding free_entry
  free_entries [] looper = looper
  free_entries (a ∷ removed) looper =
      free_entries removed
        (record looper { entries = free_entry a looper.entries; removed_epoll_entrys = removed })

  -- The end of a round.
  unfoldable pub clean_up : Loop U → Loop U
  unfolding free_entries delete_removed_worker
  clean_up looper = delete_removed_worker (free_entries looper.removed_epoll_entrys looper)

module _ {U : Type 0} (handle_input handle_output : (handler : ℕ) → Loop U → Outcome (Loop U)) where
  -- `entry->eh->handle_…(entry->eh)` if the bits are set.
  unfoldable pub handle_if :
      Bool → ((handler : ℕ) → Loop U → Outcome (Loop U)) → EpollEntry → Loop U → Outcome (Loop U)
  handle_if true handle entry looper = handle entry.eh looper
  handle_if false handle entry looper = done looper

  abbrev pub closed_bits : ℕ
  closed_bits = bit_or epollhup (bit_or epollerr epollrdhup)

  -- `if (entry->fd == INVALID_HANDLE) continue;`
  abbrev pub is_removed : EpollEntry → Bool
  is_removed entry = entry.fd ==ℤ negsuc 0

  unfoldable pub third_step : Ready → Loop U → Outcome (Loop U)
  unfolding handle_if entry_at
  third_step ev looper = do
    entry ← entry_at ev.ptr looper
    if is_removed entry
        then done looper
        else handle_if (test_bits ev.events epollout) handle_output entry looper

  unfoldable pub second_step : Ready → Loop U → Outcome (Loop U)
  unfolding handle_if entry_at third_step
  second_step ev looper = do
    entry ← entry_at ev.ptr looper
    if is_removed entry
        then done looper
        else handle_if (test_bits ev.events epollin) handle_input entry looper >>= third_step ev

  -- The body of the loop over the ready entries.
  unfoldable pub handle_ready : Ready → Loop U → Outcome (Loop U)
  unfolding handle_if entry_at second_step
  handle_ready ev looper = do
    entry ← entry_at ev.ptr looper
    if is_removed entry
        then done looper
        else handle_if (test_bits ev.events closed_bits) handle_input entry looper
          >>= second_step ev

  unfoldable pub handle_all : List Ready → Loop U → Outcome (Loop U)
  handle_all [] looper = done looper
  handle_all (ev ∷ evs) looper = handle_ready ev looper >>= handle_all evs

  module _ (call : (worker_do userdata : ℕ) → Loop U → Outcome (Loop U)) (fuel : ℕ) where
    -- `fuel` bounds the walk over the workers in each round.
    unfoldable pub epoll_run : List WaitReply → Loop U → Outcome (Ended U)
    unfolding dispatch_worker handle_all clean_up
    epoll_run [] looper =
        if looper.exit == 0
        then (do looper' ← dispatch_worker call fuel looper; done (waiting looper'))
        else done (exited looper)
    epoll_run (ready evs ∷ replies) looper =
        if looper.exit == 0
        then (do
          looper' ← dispatch_worker call fuel looper
          looper'' ← handle_all evs looper'
          epoll_run replies (clean_up looper''))
        else done (exited looper)
    epoll_run (wait_failed errno ∷ replies) looper =
        if looper.exit == 0
        then (do
          looper' ← dispatch_worker call fuel looper
          if errno == eintr then epoll_run replies looper' else done (wait_error errno looper'))
        else done (exited looper)
