-- ===== src/Checker/Watching.antt =====
-- The sets that `worker` of nwchecker_server_multiprocess.c (04-24_UNIX异步IO机制) gives to `select`.
use imooc_sock_core_tech.Prelude.{
  ℕ, ◌+◌, ◌<◌, ◌≡◌, Bool, false, ◌&&◌, ◌||◌, none, some, List, [], ◌∷◌, ◌++◌, arith, has, ◌==◌,
  Option-cases, inl, inr,
}
use imooc_sock_core_tech.Checker.{Connection, reads, writes, FdSets, nfds_of, raise_max}
use imooc_sock_core_tech.Checker.Answering.{watch, watch_all}
use imooc_sock_core_tech.Checker.Worker.{Process, own_sets, one_if}

-- The connections whose descriptor is not -1.
abbrev pub still_open : List Connection → List Connection
still_open [] = []
still_open (nwc ∷ nwcs) = elim (nwc.fd) [ none ↦ still_open nwcs | some fd ↦ nwc ∷ still_open nwcs ]

-- Some connection with the descriptor `d` asks for the event.
abbrev pub asks : (event : ℕ → Bool) → (d : ℕ) → List Connection → Bool
asks event d [] = false
asks event d (nwc ∷ nwcs) = elim (nwc.fd) [
  | none ↦ asks event d nwcs
  | some fd ↦ ((d == fd) && event nwc.events) || asks event d nwcs
]

abbrev pub Below : (n : ℕ) → List ℕ → Type 0
Below n [] = Unit
Below n (d ∷ set) = (d < n) × Below n set

Below-mono : (n m : ℕ) (set : List ℕ) → n < m + 1 → Below n set → Below m set
Below-mono n m [] le h = tt
Below-mono n m (d ∷ set) le h = (omega arith, Below-mono n m set le h.1)

abbrev pub AreBelow : FdSets → Type 0
AreBelow sets = Below (nfds_of sets.max_fd) sets.readfds × Below (nfds_of sets.max_fd) sets.writefds

watch-AreBelow : (fd events : ℕ) (sets : FdSets) → AreBelow sets → AreBelow (watch fd events sets)
unfolding watch
watch-AreBelow fd events sets h = ground (
  arith,
  Below-mono (nfds_of sets.max_fd) (nfds_of (raise_max fd sets.max_fd)) sets.readfds,
  Below-mono (nfds_of sets.max_fd) (nfds_of (raise_max fd sets.max_fd)) sets.writefds,
)

watch_all-AreBelow :
    (nwcs : List Connection) (sets : FdSets) → AreBelow sets → AreBelow (watch_all nwcs sets).1
unfolding watch_all
watch_all-AreBelow [] sets h = h
watch_all-AreBelow (nwc ∷ nwcs) sets h = elim (Option-cases nwc.fd) [
  | inl shut ↦ ground (arith, watch_all-AreBelow nwcs sets h)
  | inr (fd, held) ↦ ground (
    arith,
    watch_all-AreBelow nwcs (watch fd nwc.events sets) (watch-AreBelow fd nwc.events sets h),
  )
]

pub watch_all-has :
    (d : ℕ) (nwcs : List Connection) (sets : FdSets)
    → let (left, sets') = watch_all nwcs sets in
      (left ≡ still_open nwcs)
      × (has d sets'.readfds ≡ (has d sets.readfds || asks reads d nwcs))
      × (has d sets'.writefds ≡ (has d sets.writefds || asks writes d nwcs))
unfolding watch_all
watch_all-has d [] sets = ground arith
watch_all-has d (nwc ∷ nwcs) sets = elim (Option-cases nwc.fd) [
  | inl shut ↦ ground (arith, watch_all-has d nwcs sets)
  | inr (fd, held) ↦ ground (arith, watch_all-has d nwcs (watch fd nwc.events sets))
]

own_sets-AreBelow : (p : Process) → AreBelow (own_sets p)
unfolding own_sets
own_sets-AreBelow p = ground arith

-- What a worker asks of `select`: closed connections leave the list, a descriptor is in the set for
-- reading exactly if it is the listening or the notifying one or an open connection with it waits
-- to read, it is in the set for writing exactly if an open connection with it waits to write, and
-- all descriptors of both sets are below the number of descriptors that is passed.
pub round_sets :
    (p : Process) (d : ℕ)
    → let (left, sets) = watch_all p.ctx.nwc_hdr (own_sets p) in
      (left ≡ still_open p.ctx.nwc_hdr)
      × (has d sets.readfds ≡ (
          has d (one_if p.ctx.listen_fd ++ one_if p.ctx.notify_fd1) || asks reads d p.ctx.nwc_hdr))
      × (has d sets.writefds ≡ asks writes d p.ctx.nwc_hdr)
      × AreBelow sets
unfolding own_sets
round_sets p d =
    let (left, reading, writing) = watch_all-has d p.ctx.nwc_hdr (own_sets p) in
    (left, reading, writing, watch_all-AreBelow p.ctx.nwc_hdr (own_sets p) (own_sets-AreBelow p))
