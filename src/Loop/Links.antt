-- ===== src/Loop/Links.antt =====
-- The worker lists of nwc_looper.c, as sequences and as rings on the links of list.h.
use imooc_sock_core_tech.Prelude.{
  ℕ, ◌≡◌, refl, false, List, [], ◌∷◌, ◌++◌, arith, has, has-append, has-apart, Distinct,
  Distinct-middle, Bool-cases, inl, inr,
}
use imooc_sock_core_tech.ListHead.{Links, list_add_tail, list_del}
use imooc_sock_core_tech.ListHead.Ring.{
  Ring, Apart, Ring-add_tail, Ring-del, Ring-del_other, Ring-add_tail_other,
}
use imooc_sock_core_tech.Loop.{Worker, Loop}
use imooc_sock_core_tech.Loop.Workers.{del_worker, register_worker, cancel_worker}
use imooc_sock_core_tech.Loop.Dispatch.{worker_addrs}

worker_addrs-append :
    (xs ys : List Worker) → worker_addrs (xs ++ ys) ≡ worker_addrs xs ++ worker_addrs ys
worker_addrs-append [] ys = refl
worker_addrs-append (x ∷ xs) ys = ground (arith, worker_addrs-append xs ys)

del_worker-middle :
    (pre rest : List Worker) (w : Worker)
    → Distinct (worker_addrs pre ++ w.addr ∷ worker_addrs rest)
    → del_worker w.addr (pre ++ w ∷ rest) ≡ pre ++ rest
unfolding del_worker
del_worker-middle [] rest w d = ground arith
del_worker-middle (x ∷ pre) rest w d = ground (
  arith,
  del_worker-middle pre rest w d.1,
  has-append x.addr (worker_addrs pre) (w.addr ∷ worker_addrs rest),
)

Apart-symm : (h g : ℕ) (xs ys : List ℕ) → Apart h xs g ys → Apart g ys h xs
Apart-symm h g xs ys apart b i = elim (Bool-cases (has b (g ∷ ys))) [
  | inl there ↦ cc (apart b there)
  | inr out ↦ out
]

module _ {U : Type 0} (hdr removed : ℕ) where
  -- The links hold the two worker lists of the looper, in rings that share no node.
  pub record Holds (l : Links) (looper : Loop U) : Type 0 where
    pub workers : Ring l hdr (worker_addrs looper.worker_hdr)
    pub cancelled : Ring l removed (worker_addrs looper.removed_worker_hdr)
    pub apart :
        Apart hdr (worker_addrs looper.worker_hdr) removed (worker_addrs looper.removed_worker_hdr)

  -- Where the links hold the two worker lists of the looper in two rings that share no node, and
  -- the new worker's node is in neither, adding it to the tail of the first ring makes the links
  -- hold the two lists of the looper after `register_worker`.
  pub register_worker-Holds :
      (worker ud worker_do : ℕ) (l : Links) (looper : Loop U)
      → Holds l looper
      → has worker (hdr ∷ worker_addrs looper.worker_hdr) ≡ false
      → has worker (removed ∷ worker_addrs looper.removed_worker_hdr) ≡ false
      → Holds (list_add_tail worker hdr l) (register_worker worker ud worker_do looper).1
  unfolding register_worker
  register_worker-Holds worker ud worker_do l looper h new_here new_there = record {
    workers =
        rw worker_addrs-append
          (Ring-add_tail l hdr worker (worker_addrs looper.worker_hdr) h.workers new_here);
    cancelled =
        Ring-add_tail_other l hdr removed (worker_addrs looper.worker_hdr)
          (worker_addrs looper.removed_worker_hdr) worker h.workers h.cancelled h.apart new_there;
    apart = λ b i. ground (
      arith,
      h.apart b i,
      has-append b (worker_addrs looper.worker_hdr) (worker ∷ []),
      worker_addrs-append looper.worker_hdr
          (record { addr = worker; userdata = ud; worker_do = worker_do } ∷ []),
      has-apart worker b (removed ∷ worker_addrs looper.removed_worker_hdr),
    );
  }

  -- Cancelling a worker of the list.
  module _ (l : Links) (looper : Loop U) (pre rest : List Worker) (w : Worker) (h : Holds l looper)
      (listed : looper.worker_hdr ≡ pre ++ w ∷ rest) where
    parts : worker_addrs looper.worker_hdr ≡ worker_addrs pre ++ w.addr ∷ worker_addrs rest
    parts = rw listed (worker_addrs-append pre (w ∷ rest))

    abbrev others : List ℕ
    others = worker_addrs looper.removed_worker_hdr

    before : Ring l hdr (worker_addrs pre ++ w.addr ∷ worker_addrs rest)
    before = rw parts at (h.workers)

    split-Apart : Apart hdr (worker_addrs pre ++ w.addr ∷ worker_addrs rest) removed others
    split-Apart = λ b i. rw parts at (h.apart b i)

    left : (del_worker w.addr looper.worker_hdr ≡ pre ++ rest)
    left = rw listed (del_worker-middle pre rest w before.distinct.1)

    unlinked : Ring (list_del w.addr l) hdr (worker_addrs pre ++ worker_addrs rest)
    unlinked = Ring-del l hdr w.addr (worker_addrs pre) (worker_addrs rest) before

    others_kept : Ring (list_del w.addr l) removed others
    others_kept =
        Ring-del_other l hdr removed (worker_addrs pre) others w.addr (worker_addrs rest) before
          h.cancelled split-Apart

    fresh : has w.addr (removed ∷ others) ≡ false
    fresh =
        Apart-symm hdr removed (worker_addrs pre ++ w.addr ∷ worker_addrs rest) others split-Apart
          w.addr (ground (arith, has-append w.addr (worker_addrs pre) (w.addr ∷ worker_addrs rest)))

    gone : has w.addr (hdr ∷ worker_addrs pre ++ worker_addrs rest) ≡ false
    gone = ground (
      arith,
      before.distinct,
      Distinct-middle (worker_addrs pre) (worker_addrs rest) w.addr before.distinct.1,
      has-append hdr (worker_addrs pre) (w.addr ∷ worker_addrs rest),
    )

    left-Apart : Apart removed others hdr (worker_addrs pre ++ worker_addrs rest)
    left-Apart = λ b i.
        Apart-symm hdr removed (worker_addrs pre ++ w.addr ∷ worker_addrs rest) others split-Apart b
          (ground (
            arith,
            has-append b (worker_addrs pre) (worker_addrs rest),
            has-append b (worker_addrs pre) (w.addr ∷ worker_addrs rest),
          ))

    -- Where the links hold the two worker lists of the looper in two rings that share no node, and
    -- `w` is a worker of the list, deleting its node and adding it to the tail of the removed ring
    -- makes the links hold the two lists of the looper after `cancel_worker`.
    pub cancel_worker-Holds :
        Holds (list_add_tail w.addr removed (list_del w.addr l)) (cancel_worker w.addr looper)
    unfolding cancel_worker
    cancel_worker-Holds = record {
      workers =
          rw (left, worker_addrs-append pre rest)
            (Ring-add_tail_other (list_del w.addr l) removed hdr others
              (worker_addrs pre ++ worker_addrs rest) w.addr others_kept unlinked left-Apart gone);
      cancelled =
          rw worker_addrs-append
            (Ring-add_tail (list_del w.addr l) removed w.addr others others_kept fresh);
      apart = λ b i. ground (
        arith,
        left,
        worker_addrs-append pre rest,
        gone,
        split-Apart b,
        has-append b (worker_addrs pre) (worker_addrs rest),
        has-append b (worker_addrs pre) (w.addr ∷ worker_addrs rest),
        has-append b others (w.addr ∷ []),
        worker_addrs-append looper.removed_worker_hdr
            (record { addr = w.addr; userdata = 0; worker_do = 0 } ∷ []),
        has-apart w.addr b (removed ∷ others),
      );
    }
