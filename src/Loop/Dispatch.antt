-- ===== src/Loop/Dispatch.antt =====
-- `nwc_looper_dispatch_worker` (nwc_looper.c): which workers a round calls.
use imooc_sock_core_tech.Prelude.{
  ℕ, zero, suc, ◌<◌, ◌≡◌, refl, true, false, some, List, [], ◌∷◌, ◌++◌, arith, ◌==◌, has, has-apart,
  Distinct, length, append_assoc, sym, ◌∙◌,
}
use imooc_sock_core_tech.Outcome.{Outcome, done, ◌>>=◌, >>=-agree}
use imooc_sock_core_tech.Loop.{Worker, Loop}
use imooc_sock_core_tech.Loop.Workers.{
  Pos, head, node, find_worker, first_pos, after, next_pos, worker_at, run_worker, dispatch_loop,
  dispatch_worker,
}

abbrev pub worker_addrs : List Worker → List ℕ
worker_addrs [] = []
worker_addrs (w ∷ ws) = w.addr ∷ worker_addrs ws

-- No worker of the list is cancelled.
abbrev pub AllSet : List Worker → Type 0
AllSet [] = Unit
AllSet (w ∷ ws) = ((w.worker_do == 0) ≡ false) × AllSet ws

has-middle :
    (pre rest : List Worker) (w : Worker) → has w.addr (worker_addrs (pre ++ w ∷ rest)) ≡ true
has-middle [] rest w = ground arith
has-middle (x ∷ pre) rest w = ground (arith, has-middle pre rest w)

pub find_worker-middle :
    (pre rest : List Worker) (w : Worker)
    → Distinct (worker_addrs (pre ++ w ∷ rest))
    → find_worker w.addr (pre ++ w ∷ rest) ≡ some w
unfolding find_worker
find_worker-middle [] rest w d = ground arith
find_worker-middle (x ∷ pre) rest w d = ground (
  arith,
  find_worker-middle pre rest w d.1,
  has-middle pre rest w,
  has-apart x.addr w.addr (worker_addrs (pre ++ w ∷ rest)),
)

pub after-middle :
    (pre rest : List Worker) (w : Worker) (stop : Pos)
    → Distinct (worker_addrs (pre ++ w ∷ rest))
    → after w.addr (pre ++ w ∷ rest) stop ≡ some (first_pos rest stop)
unfolding after
after-middle [] rest w stop d = ground arith
after-middle (x ∷ pre) rest w stop d = ground (
  arith,
  after-middle pre rest w stop d.1,
  has-middle pre rest w,
  has-apart x.addr w.addr (worker_addrs (pre ++ w ∷ rest)),
)

module _ {U : Type 0} (call : (worker_do userdata : ℕ) → Loop U → Outcome (Loop U)) where
  -- The calls of the workers `ws`, one after the other.
  abbrev pub call_each : List Worker → Loop U → Outcome (Loop U)
  call_each [] looper = done looper
  call_each (w ∷ ws) looper = call w.worker_do w.userdata looper >>= call_each ws

  next_pos-node :
      (looper : Loop U) (pre rest : List Worker) (w : Worker)
      → looper.worker_hdr ≡ pre ++ w ∷ rest
      → Distinct (worker_addrs (pre ++ w ∷ rest))
      → next_pos (node w.addr) looper ≡ done (first_pos rest head)
  unfolding next_pos
  next_pos-node looper pre rest w e d = ground (arith, e, after-middle pre rest w head d)

  worker_at-node :
      (looper : Loop U) (pre rest : List Worker) (w : Worker)
      → looper.worker_hdr ≡ pre ++ w ∷ rest
      → Distinct (worker_addrs (pre ++ w ∷ rest))
      → worker_at (node w.addr) looper ≡ done w
  unfolding worker_at
  worker_at-node looper pre rest w e d = ground (arith, e, find_worker-middle pre rest w d)

  next_pos-first :
      (looper : Loop U) (pre rest : List Worker)
      → looper.worker_hdr ≡ pre ++ rest
      → Distinct (worker_addrs (pre ++ rest))
      → (n : Pos) × (next_pos (first_pos rest head) looper ≡ done n)
  next_pos-first looper pre [] e d = (first_pos looper.worker_hdr head, unfold next_pos in refl)
  next_pos-first looper pre (w ∷ rest) e d =
      (first_pos rest head, next_pos-node looper pre rest w e d)

  module _
      (keeps : (worker_do userdata : ℕ) (looper looper' : Loop U)
        → call worker_do userdata looper ≡ done looper'
        → looper'.worker_hdr ≡ looper.worker_hdr) where
    dispatch_loop-call_each :
        (k : ℕ) (looper : Loop U) (pre rest : List Worker) (n : Pos)
        → looper.worker_hdr ≡ pre ++ rest
        → Distinct (worker_addrs (pre ++ rest))
        → AllSet rest
        → next_pos (first_pos rest head) looper ≡ done n
        → length rest < k
        → dispatch_loop call k (first_pos rest head) n looper ≡ call_each rest looper
    unfolding dispatch_loop run_worker
    dispatch_loop-call_each zero looper pre rest n e d set at fuel = absurd (omega arith)
    dispatch_loop-call_each (suc k) looper pre [] n e d set at fuel = refl
    dispatch_loop-call_each (suc k) looper pre (w ∷ rest) n e d set at fuel =
        let here : n ≡ first_pos rest head = cc (next_pos-node looper pre rest w e d) in
        let behind : pre ++ w ∷ rest ≡ (pre ++ w ∷ []) ++ rest =
          sym (append_assoc pre (w ∷ []) rest) in
        let d' : Distinct (worker_addrs ((pre ++ w ∷ []) ++ rest)) = rw behind at d in
        rw (worker_at-node looper pre rest w e d) (
          rw set.0 (
            >>=-agree (call w.worker_do w.userdata looper) _ (call_each rest) λ looper' ran.
              let e' : looper'.worker_hdr ≡ (pre ++ w ∷ []) ++ rest =
                keeps w.worker_do w.userdata looper looper' ran ∙ e ∙ behind in
              let (n', at') = next_pos-first looper' (pre ++ w ∷ []) rest e' d' in
              rw here (
                rw at' (
                  dispatch_loop-call_each k looper' (pre ++ w ∷ []) rest n' e' d' set.1 at'
                    (omega arith)))))

    -- With callbacks that leave the worker list alone.
    pub dispatch_worker-kept :
        (k : ℕ) (looper : Loop U)
        → Distinct (worker_addrs looper.worker_hdr)
        → AllSet looper.worker_hdr
        → length looper.worker_hdr < k
        → dispatch_worker call k looper ≡ call_each looper.worker_hdr looper
    unfolding dispatch_worker
    dispatch_worker-kept k looper d set enough =
        let (n, at) = next_pos-first looper [] looper.worker_hdr refl d in
        unfold next_pos in
        rw at (dispatch_loop-call_each k looper [] looper.worker_hdr n refl d set at enough)
