-- ===== src/Loop/Workers.antt =====
-- 04-30_nwchecker_refactor/nwc_looper.c: registering, cancelling and running workers.
use imooc_sock_core_tech.Prelude.{
  ℕ, zero, suc, ◌≡◌, refl, arith, ==-refl, Option, none, some, List, [], ◌∷◌, ◌++◌, ◌==◌,
  if◌then◌else◌,
}
use imooc_sock_core_tech.Outcome.{Outcome, done, fault, hang, ◌>>=◌}
use imooc_sock_core_tech.Loop.{Worker, Loop}

-- A `struct list_head *` of the two worker lists.
pub data Pos : Type 0 where
  head : Pos
  removed_head : Pos
  node : ℕ → Pos

unfoldable pub find_worker : ℕ → List Worker → Option Worker
find_worker a [] = none
find_worker a (w ∷ ws) = if w.addr == a then some w else find_worker a ws

-- `list_del` on a worker list as a sequence.
unfoldable pub del_worker : ℕ → List Worker → List Worker
del_worker a [] = []
del_worker a (w ∷ ws) = if w.addr == a then ws else w ∷ del_worker a ws

abbrev pub first_pos : List Worker → Pos → Pos
first_pos [] stop = stop
first_pos (w ∷ ws) stop = node w.addr

-- The node after `a`, `none` if `a` is not in the list.
unfoldable pub after : ℕ → List Worker → Pos → Option Pos
after a [] stop = none
after a (w ∷ ws) stop = if w.addr == a then some (first_pos ws stop) else after a ws stop

module _ {U : Type 0} where
  unfoldable pub looper_init : Loop U → Loop U
  looper_init looper = record looper { worker_hdr = []; removed_worker_hdr = [] }

  -- `worker` is what `malloc` returns. Returns the handle too.
  unfoldable pub register_worker : (worker ud worker_do : ℕ) → Loop U → ℕ × Loop U
  register_worker worker ud worker_do looper = (
    worker,
    record looper {
      worker_hdr =
          looper.worker_hdr ++ record { addr = worker; userdata = ud; worker_do = worker_do } ∷ [];
    },
  )

  unfoldable pub cancel_worker : (wk : ℕ) → Loop U → Loop U
  cancel_worker wk looper = record looper {
    worker_hdr = del_worker wk looper.worker_hdr;
    removed_worker_hdr =
        looper.removed_worker_hdr ++ record { addr = wk; userdata = 0; worker_do = 0 } ∷ [];
  }

  -- `pos->next`: a fault where the node is in neither list, which is to say freed.
  unfoldable pub next_pos : Pos → Loop U → Outcome Pos
  unfolding after
  next_pos head looper = done (first_pos looper.worker_hdr head)
  next_pos removed_head looper = done (first_pos looper.removed_worker_hdr removed_head)
  next_pos (node a) looper = elim (after a looper.worker_hdr head) [
    | some p ↦ done p
    | none ↦ elim (after a looper.removed_worker_hdr removed_head) [
      | some p ↦ done p
      | none ↦ fault
    ]
  ]

  -- `list_entry(pos, …)`; a list's head is no worker.
  unfoldable pub worker_at : Pos → Loop U → Outcome Worker
  unfolding find_worker
  worker_at head looper = fault
  worker_at removed_head looper = fault
  worker_at (node a) looper = elim (find_worker a looper.worker_hdr) [
    | some w ↦ done w
    | none ↦ elim (find_worker a looper.removed_worker_hdr) [ some w ↦ done w | none ↦ fault ]
  ]

  -- `list_del(pos); free(entry);` whichever list the node is in.
  unfoldable pub drop_worker : ℕ → Loop U → Loop U
  unfolding del_worker
  drop_worker a looper = record looper {
    worker_hdr = del_worker a looper.worker_hdr;
    removed_worker_hdr = del_worker a looper.removed_worker_hdr;
  }

  module _ (call : (worker_do userdata : ℕ) → Loop U → Outcome (Loop U)) where
    unfoldable pub run_worker : Worker → Loop U → Outcome (Loop U)
    run_worker entry looper =
        if entry.worker_do == 0
        then done (drop_worker entry.addr looper)
        else call entry.worker_do entry.userdata looper

    -- `list_for_each_safe`: `n` was read before the body, and its successor is read after it.
    unfoldable pub dispatch_loop : (fuel : ℕ) (pos n : Pos) → Loop U → Outcome (Loop U)
    unfolding run_worker worker_at next_pos drop_worker
    dispatch_loop zero pos n looper = hang
    dispatch_loop (suc k) head n looper = done looper
    dispatch_loop (suc k) pos n looper = do
      entry ← worker_at pos looper
      looper' ← run_worker entry looper
      n' ← next_pos n looper'
      dispatch_loop k n n' looper'

    unfoldable pub dispatch_worker : (fuel : ℕ) → Loop U → Outcome (Loop U)
    unfolding dispatch_loop
    dispatch_worker fuel looper = do
      pos ← next_pos head looper
      n ← next_pos pos looper
      dispatch_loop fuel pos n looper

  delete_loop : List Worker → Loop U → Loop U
  delete_loop [] looper = looper
  delete_loop (w ∷ ws) looper =
      delete_loop ws
        (record looper { removed_worker_hdr = del_worker w.addr looper.removed_worker_hdr })

  unfoldable pub delete_removed_worker : Loop U → Loop U
  unfolding delete_loop del_worker
  delete_removed_worker looper = delete_loop looper.removed_worker_hdr looper

  delete_loop-removed :
      (ws : List Worker) (looper : Loop U)
      → looper.removed_worker_hdr ≡ ws
      → delete_loop ws looper ≡ record looper { removed_worker_hdr = [] }
  unfolding delete_loop del_worker
  delete_loop-removed [] looper e = ground arith
  delete_loop-removed (w ∷ ws) looper e = ground (
    arith,
    delete_loop-removed ws
        (record looper { removed_worker_hdr = del_worker w.addr looper.removed_worker_hdr }),
    ==-refl w.addr,
  )

  -- Every removed worker is freed, and nothing else changes.
  pub delete_removed_worker_lem :
      (looper : Loop U) → delete_removed_worker looper ≡ record looper { removed_worker_hdr = [] }
  unfolding delete_removed_worker
  delete_removed_worker_lem looper = delete_loop-removed looper.removed_worker_hdr looper refl
