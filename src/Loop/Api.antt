-- ===== src/Loop/Api.antt =====
-- The `nwc_looper_…` functions of 04-30_nwchecker_refactor/nwc.c: the checks on the handles before
-- the call through the looper's function pointer.
use imooc_sock_core_tech.Prelude.{ℕ, Option, none, some, ◌==◌, if◌then◌else◌}
use imooc_sock_core_tech.Prelude.Int.{ℤ, pos, negsuc}
use imooc_sock_core_tech.Types.{NwcHandle, invalid_handle, schedule_timer}
use imooc_sock_core_tech.Outcome.{Outcome, done, ◌>>=◌}
use imooc_sock_core_tech.Loop.{Loop, EpollCtl}
use imooc_sock_core_tech.Loop.Workers.{register_worker, cancel_worker}
use imooc_sock_core_tech.Loop.Epoll.{
  CreateReply, epoll_init, epoll_start, epoll_stop, epoll_add_handler, epoll_remove_handler,
  epoll_register_event, epoll_cancel_event,
}

-- A status as an `int`: 0 or a positive error number from below, -1 from the checks here.
abbrev pub status {ℓ} : {A : Type ℓ} → ℕ × A → ℤ × A
status (rc, a) = (pos rc, a)

module _ {U : Type 0} where
  unfoldable pub looper_create : Loop U → Loop U
  unfolding epoll_init
  looper_create looper = record (epoll_init looper) { timeout_interval = pos schedule_timer }

  unfoldable pub looper_start : NwcHandle → CreateReply → Loop U → ℤ × Loop U
  unfolding epoll_start
  looper_start none reply looper = (negsuc 0, looper)
  looper_start (some _) reply looper = status (epoll_start reply looper)

  unfoldable pub looper_stop : NwcHandle → Loop U → ℤ × Loop U
  unfolding epoll_stop
  looper_stop none looper = (negsuc 0, looper)
  looper_stop (some _) looper = status (epoll_stop looper)

  unfoldable pub looper_register_worker :
      NwcHandle → (worker ud worker_do : ℕ) → Loop U → NwcHandle × Loop U
  unfolding register_worker
  looper_register_worker none worker ud worker_do looper = (invalid_handle, looper)
  looper_register_worker (some _) worker ud worker_do looper =
      if worker_do == 0
      then (invalid_handle, looper)
      else let (wk, looper') = register_worker worker ud worker_do looper in (some wk, looper')

  unfoldable pub looper_cancel_worker : NwcHandle → NwcHandle → Loop U → ℤ × Loop U
  unfolding cancel_worker
  looper_cancel_worker none wk looper = (negsuc 0, looper)
  looper_cancel_worker (some _) none looper = (negsuc 0, looper)
  looper_cancel_worker (some _) (some wk) looper = (pos 0, cancel_worker wk looper)

  module _ (ctl : EpollCtl) where
    -- `handler` is `none` for NULL.
    unfoldable pub looper_add_handler :
        NwcHandle → (entry handler : Option ℕ) (fd : ℤ) → Loop U → NwcHandle × Loop U
    unfolding epoll_add_handler
    looper_add_handler none entry handler fd looper = (invalid_handle, looper)
    looper_add_handler (some _) entry none fd looper = (invalid_handle, looper)
    looper_add_handler (some _) entry (some h) fd looper = epoll_add_handler ctl entry h fd looper

    unfoldable pub looper_remove_handler : NwcHandle → NwcHandle → Loop U → Outcome (ℤ × Loop U)
    unfolding epoll_remove_handler
    looper_remove_handler none handle looper = done (negsuc 0, looper)
    looper_remove_handler (some _) none looper = done (negsuc 0, looper)
    looper_remove_handler (some _) (some h) looper = do
      r ← epoll_remove_handler ctl h looper
      done (status r)

    unfoldable pub looper_register_event :
        NwcHandle → NwcHandle → (events : ℕ) → Loop U → Outcome (ℤ × Loop U)
    unfolding epoll_register_event
    looper_register_event none handle events looper = done (negsuc 0, looper)
    looper_register_event (some _) none events looper = done (negsuc 0, looper)
    looper_register_event (some _) (some h) events looper = do
      r ← epoll_register_event ctl h events looper
      done (status r)

    unfoldable pub looper_cancel_event :
        NwcHandle → NwcHandle → (events : ℕ) → Loop U → Outcome (ℤ × Loop U)
    unfolding epoll_cancel_event
    looper_cancel_event none handle events looper = done (negsuc 0, looper)
    looper_cancel_event (some _) none events looper = done (negsuc 0, looper)
    looper_cancel_event (some _) (some h) events looper = do
      r ← epoll_cancel_event ctl h events looper
      done (status r)
