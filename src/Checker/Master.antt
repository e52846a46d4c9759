-- ===== src/Checker/Master.antt =====
-- `nwc_server_process` of nwchecker_server_multiprocess.c (04-24_UNIX异步IO机制): the socket, the four
-- workers, and the end. `fork` answers 0 in the new process; what `waitpid` waits for is left out.
use imooc_sock_core_tech.Prelude.{
  ℕ, zero, suc, ◌+◌, Bool, Option, none, some, List, [], ◌∷◌, ◌==◌, set, if◌then◌else◌,
}
use imooc_sock_core_tech.Prelude.Int.{ℤ, pos, negsuc}
use imooc_sock_core_tech.Checker.{
  Cmd, pure, ◌>>=◌, ◌>>◌, get, put, note_call, on_fd, closed, next_pair, next_fork,
}
use imooc_sock_core_tech.Checker.Listening.{listen_socket}
use imooc_sock_core_tech.Checker.Worker.{WorkerContext, Process, notify_exit, worker}

-- `worker_context_init`; `none` is its failure.
unfoldable pub worker_context_init : (timeout : ℕ) → Cmd Process (Option WorkerContext)
unfolding next_pair
worker_context_init timeout = next_pair >>= λ reply. elim reply [
  | none ↦ pure none
  | some (a, b) ↦ pure (
      some (record {
        pid = none;
        notify_fd0 = some a;
        notify_fd1 = some b;
        listen_fd = none;
        timeout = timeout;
        nwc_hdr = [];
      }))
]

-- How the loop that makes the workers ends: all are there, a socket pair failed, or this process is
-- a worker that has ended.
pub data Spawn : Type 0 where
  spawned : Spawn
  init_failed : Spawn
  worker_exited : Spawn

abbrev set_worker : (i : ℕ) → WorkerContext → Process → Process
set_worker i ctx p = record p { worker_ctxs = set p.worker_ctxs i ctx }

-- `exit_handler`: what SIGINT and SIGTERM do in the master.
unfoldable pub exit_handler : Cmd Process (Unit {0})
unfolding notify_exit
exit_handler = get >>= λ p. notify_exit p.ctx.notify_fd0

unfoldable pub exit_workers : List WorkerContext → Cmd Process (Unit {0})
unfolding notify_exit
exit_workers [] = pure tt
exit_workers (ctx ∷ ctxs) = do
  notify_exit ctx.notify_fd0
  on_fd closed ctx.notify_fd0
  exit_workers ctxs

-- From the label `exit` on.
unfoldable pub finish_process : (sock_fd : ℕ) → Cmd Process ℤ
unfolding exit_workers
finish_process sock_fd = do
  p ← get
  exit_workers p.worker_ctxs
  p' ← get
  on_fd closed p'.ctx.notify_fd0
  on_fd closed p'.ctx.notify_fd1
  note_call (closed sock_fd)
  pure (pos 0)

-- `useconds_t sleep_time = na->interval < 0 ? 0 : na->interval`
abbrev pub sleep_time_of : (interval : ℤ) → ℕ
sleep_time_of (pos n) = n
sleep_time_of (negsuc n) = 0

module _ (stray : List ℕ → Bool) (pid : ℕ) (fuel : ℕ) where
  -- The new process: it runs `worker` on its context.
  unfoldable pub worker_process : (i : ℕ) → WorkerContext → Cmd Process Spawn
  unfolding worker
  worker_process i ctx = do
    on_fd closed ctx.notify_fd0
    p ← get
    put (record (set_worker i (record ctx { notify_fd0 = none }) p) {
      ctx = record ctx { notify_fd0 = none };
    })
    worker stray pid fuel
    pure worker_exited

  -- The rounds that are left of `for (int i=0; i < 4; i++)`, from `i`.
  unfoldable pub spawn_workers : (left i timeout : ℕ) → Cmd Process Spawn
  unfolding worker_context_init worker_process next_fork
  spawn_workers zero i timeout s = pure spawned s
  spawn_workers (suc left) i timeout s =
      let more = spawn_workers left (i + 1) timeout in
      (worker_context_init timeout >>= λ made. elim made [
        | none ↦ pure init_failed
        | some ctx ↦ do
          forked ← next_fork
          elim forked [
            | none ↦ do
              on_fd closed ctx.notify_fd1
              p ← get
              put (set_worker i (record ctx { notify_fd1 = none }) p)
              more
            | some child ↦ if child == 0 then worker_process i ctx else (do
              on_fd closed ctx.notify_fd1
              p ← get
              put (set_worker i (record ctx { notify_fd1 = none; pid = some child }) p)
              more)
          ]
      ])
        s

  -- The master's own round: `g_ctx` and `worker`.
  unfoldable pub run_master : (sock_fd : ℕ) → Cmd Process ℤ
  unfolding worker_context_init worker finish_process
  run_master sock_fd = worker_context_init 0 >>= λ made. elim made [
    | none ↦ finish_process sock_fd
    | some ctx ↦ do
      p ← get
      put (record p { ctx = record ctx { pid = some pid; listen_fd = some sock_fd } })
      worker stray pid fuel
      finish_process sock_fd
  ]

  unfoldable pub run_nwc_server_process : (port : ℕ) (interval : ℤ) → Cmd Process ℤ
  unfolding listen_socket spawn_workers run_master finish_process
  run_nwc_server_process port interval = listen_socket port >>= λ reply. elim reply [
    | none ↦ pure (negsuc 0)
    | some sock_fd ↦ spawn_workers 4 0 (sleep_time_of interval) >>= λ r. elim r [
      | spawned ↦ run_master sock_fd
      | init_failed ↦ finish_process sock_fd
      | worker_exited ↦ pure (negsuc 0)
    ]
  ]
