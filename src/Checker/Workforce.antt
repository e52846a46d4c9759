-- ===== src/Checker/Workforce.antt =====
-- The master of nwchecker_server_multiprocess.c (04-24_UNIX异步IO机制) from its four workers on.
use imooc_sock_core_tech.Prelude.{ℕ, suc, ◌≡◌, some, none, Bool, Option, List, [], ◌∷◌, ◌++◌, arith}
use imooc_sock_core_tech.Outcome.{done}
use imooc_sock_core_tech.Checker.{System, Call, closed}
use imooc_sock_core_tech.Checker.Worker.{WorkerContext, Process}
use imooc_sock_core_tech.Checker.Master.{spawned, spawn_workers}
use imooc_sock_core_tech.Checker.Rotation.{PostsTo, PostsTo-append, IsAt}
use imooc_sock_core_tech.Checker.Balance.{Rounds, Rounds-IsAt}

-- The master's view of a worker.
abbrev pub worker_at : (timeout pid a : ℕ) → WorkerContext
worker_at timeout pid a = record {
  pid = some pid;
  notify_fd0 = some a;
  notify_fd1 = none;
  listen_fd = none;
  timeout = timeout;
  nwc_hdr = [];
}

module _ (stray : List ℕ → Bool) (pid fuel timeout : ℕ) (a0 b0 a1 b1 a2 b2 a3 b3 : ℕ)
    (c0 c1 c2 c3 : ℕ) (pairs : List (Option (ℕ × ℕ))) (forks : List (Option ℕ)) where
  four_workers : List WorkerContext
  four_workers =
      worker_at timeout (suc c0) a0
      ∷ worker_at timeout (suc c1) a1
      ∷ worker_at timeout (suc c2) a2
      ∷ worker_at timeout (suc c3) a3
      ∷ []

  spawn_workers-four :
      (x0 x1 x2 x3 : WorkerContext) (s : System Process)
      → s.locals.worker_ctxs ≡ x0 ∷ x1 ∷ x2 ∷ x3 ∷ []
      → s.pairs ≡ some (a0, b0) ∷ some (a1, b1) ∷ some (a2, b2) ∷ some (a3, b3) ∷ pairs
      → s.forks ≡ some (suc c0) ∷ some (suc c1) ∷ some (suc c2) ∷ some (suc c3) ∷ forks
      → spawn_workers stray pid fuel 4 0 timeout s
        ≡ done (
          spawned,
          record s {
            locals = record (s.locals) { worker_ctxs = four_workers };
            pairs = pairs;
            forks = forks;
            calls =
                (((s.calls ++ closed b0 ∷ []) ++ closed b1 ∷ []) ++ closed b2 ∷ [])
                ++ closed b3 ∷ [];
          },
        )
  unfolding spawn_workers four_workers
  spawn_workers-four x0 x1 x2 x3 s ws ps fs = ground arith

  -- Where four workers are spawned at index 0, over four socket pairs and by four forks in the
  -- parent, then whatever rounds the master's loop makes after that, with whatever answers, every
  -- message that hands over a descriptor goes to the first or to the third worker, where the
  -- messages before the spawning did so too.
  pub spawn_workers-PostsTo :
      (x0 x1 x2 x3 ctx : WorkerContext) (s t u : System Process)
      → s.locals.worker_ctxs ≡ x0 ∷ x1 ∷ x2 ∷ x3 ∷ []
      → s.locals.current_worker_index ≡ 0
      → PostsTo (some a0) (some a2) s.calls
      → s.pairs ≡ some (a0, b0) ∷ some (a1, b1) ∷ some (a2, b2) ∷ some (a3, b3) ∷ pairs
      → s.forks ≡ some (suc c0) ∷ some (suc c1) ∷ some (suc c2) ∷ some (suc c3) ∷ forks
      → spawn_workers stray pid fuel 4 0 timeout s ≡ done (spawned, t)
      → Rounds stray (record t { locals = record (t.locals) { ctx = ctx } }) u
      → PostsTo (some a0) (some a2) u.calls
  unfolding four_workers
  spawn_workers-PostsTo x0 x1 x2 x3 ctx s t u ws index quiet ps fs made rounds =
      let w0 = worker_at timeout (suc c0) a0 in
      let w1 = worker_at timeout (suc c1) a1 in
      let w2 = worker_at timeout (suc c2) a2 in
      let w3 = worker_at timeout (suc c3) a3 in
      let there = spawn_workers-four x0 x1 x2 x3 s ws ps fs in
      let more = λ (calls : List Call) (b : ℕ) (h : PostsTo (some a0) (some a2) calls).
        PostsTo-append (some a0) (some a2) calls (closed b ∷ []) h tt in
      let k0 = s.calls ++ closed b0 ∷ [] in
      let k1 = k0 ++ closed b1 ∷ [] in
      let k2 = k1 ++ closed b2 ∷ [] in
      let closes = more k2 b3 (more k1 b2 (more k0 b1 (more s.calls b0 quiet))) in
      let calls : t.calls ≡ k2 ++ closed b3 ∷ [] = ground (arith, there, made) in
      let start : IsAt w0 w1 w2 w3 0 (record t { locals = record (t.locals) { ctx = ctx } }) =
        record {
          workers = ground (arith, there, made);
          index = ground (arith, there, made);
          posts = rw calls closes;
        } in
      (Rounds-IsAt w0 w1 w2 w3 stray (record t { locals = record (t.locals) { ctx = ctx } }) start
        rounds).posts
