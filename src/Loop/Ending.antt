-- ===== src/Loop/Ending.antt =====
-- How `nwc_epoll_run` (nwc_epoll_looper.c) ends after a stop.
use imooc_sock_core_tech.Prelude.{ℕ, ◌≡◌, ◌≢◌, refl, List, [], ◌∷◌, arith}
use imooc_sock_core_tech.Outcome.{Outcome, done}
use imooc_sock_core_tech.Loop.{Loop}
use imooc_sock_core_tech.Loop.Workers.{dispatch_worker, delete_removed_worker_lem}
use imooc_sock_core_tech.Loop.Run.{
  Ready, WaitReply, ready, wait_failed, exited, handle_all, free_entries, clean_up, epoll_run,
}

module _ {U : Type 0} where
  free_entries-exit :
      (removed : List ℕ) (looper : Loop U) → (free_entries removed looper).exit ≡ looper.exit
  unfolding free_entries
  free_entries-exit [] looper = refl
  free_entries-exit (a ∷ removed) looper = free_entries-exit removed _

  clean_up-exit : (looper : Loop U) → (clean_up looper).exit ≡ looper.exit
  unfolding clean_up
  clean_up-exit looper =
      rw (delete_removed_worker_lem (free_entries looper.removed_epoll_entrys looper))
        (free_entries-exit looper.removed_epoll_entrys looper)

  module _ (handle_input handle_output : (handler : ℕ) → Loop U → Outcome (Loop U))
      (call : (worker_do userdata : ℕ) → Loop U → Outcome (Loop U)) (fuel : ℕ) where
    stopped :
        (replies : List WaitReply) (looper : Loop U)
        → looper.exit ≢ 0
        → epoll_run handle_input handle_output call fuel replies looper ≡ done (exited looper)
    unfolding epoll_run
    stopped [] looper stop = ground arith
    stopped (ready evs ∷ replies) looper stop = ground arith
    stopped (wait_failed errno ∷ replies) looper stop = ground arith

    -- Where a round that begins with `exit` clear dispatches the workers and handles its events,
    -- and `exit` is set when it is through, the run ends with that round's clean-up, whatever
    -- answers of `epoll_wait` are still to come.
    pub epoll_run-stop :
        (evs : List Ready) (replies : List WaitReply) (looper served handled : Loop U)
        → looper.exit ≡ 0
        → dispatch_worker call fuel looper ≡ done served
        → handle_all handle_input handle_output evs served ≡ done handled
        → handled.exit ≢ 0
        → epoll_run handle_input handle_output call fuel (ready evs ∷ replies) looper
          ≡ done (exited (clean_up handled))
    unfolding epoll_run
    epoll_run-stop evs replies looper served handled running dispatched all stop = ground (
      arith,
      dispatched,
      all,
      stopped replies (clean_up handled) (λ e. stop (ground (arith, e, clean_up-exit handled))),
    )
