-- ===== src/Checker/Worker.antt =====
-- `worker` of nwchecker_server_multiprocess.c (04-24_UNIX异步IO机制): the loop that the master and
-- each of its worker processes run.
use imooc_sock_core_tech.Prelude.{
  ℕ, zero, suc, ◌+◌, ◌*◌, ◌/◌, ◌%◌, ◌++◌, Bool, true, false, not, Option, none, some, List, [], ◌∷◌,
  ◌==◌, ltb, get_elem?, if◌then◌else◌,
}
use imooc_sock_core_tech.Outcome.{done, fault, hang}
use imooc_sock_core_tech.Types.{eintr}
use imooc_sock_core_tech.World.{AcceptReply, accepted, accept_failed}
use imooc_sock_core_tech.Wire.{u32_bytes}
use imooc_sock_core_tech.Checker.{
  Connection, Cmd, pure, ◌>>=◌, ◌>>◌, get, put, on_fd, note_call, closed, nonblocking, selected,
  SelectReply, select_failed, ready, next_select, next_accept, FdSets, raise_max, nfds_of, is_set,
}
use imooc_sock_core_tech.Checker.Answering.{destroy_all, watch_all, serve_all}
use imooc_sock_core_tech.Checker.Messages.{
  WorkerCmd, Notice, cmd_exit, cmd_fd, worker_send_msg, worker_recv_msg,
}

-- `struct worker_context`; `none` stands for -1.
pub record WorkerContext : Type 0 where
  pub pid : Option ℕ
  pub notify_fd0 : Option ℕ
  pub notify_fd1 : Option ℕ
  pub listen_fd : Option ℕ
  pub timeout : ℕ
  pub nwc_hdr : List Connection

-- The variables of a process: those of the file, and those of `worker` that last from one round to
-- the next. `ctx` is the context that `worker` got, and `timeout_value` is `*timeout_ptr`.
pub record Process : Type 0 where
  pub ctx : WorkerContext
  pub max_fd : Option ℕ
  pub timeout_value : Option (ℕ × ℕ)
  pub current_worker_index : ℕ
  pub worker_ctxs : List WorkerContext

unfoldable pub get_worker : Cmd Process WorkerContext
get_worker s =
    let p = s.locals in
    elim (get_elem? p.worker_ctxs (p.current_worker_index % 4)) [
      | none ↦ fault
      | some ctx ↦ done (
        ctx,
        record s { locals = record p { current_worker_index = p.current_worker_index % 4 + 1 } },
      )
    ]

-- `send_cmd`, which takes a worker of its own and does not use it.
unfoldable pub send_cmd : (sockfd : Option ℕ) → WorkerCmd → (fds : List ℕ) → Cmd Process (Unit {0})
unfolding get_worker worker_send_msg
send_cmd sockfd cmd fds =
    get_worker >>= λ ctx. worker_send_msg sockfd (u32_bytes cmd.cmd ++ cmd.msg) fds

unfoldable pub notify_exit : (fd : Option ℕ) → Cmd Process (Unit {0})
unfolding send_cmd
notify_exit fd = send_cmd fd (record { cmd = cmd_exit; msg = b'e' ∷ b'x' ∷ b'i' ∷ b't' ∷ [] }) []

-- The new connection that a worker makes of a descriptor.
abbrev pub new_connection : (pid fd : Option ℕ) → Connection
new_connection pid fd = record { pid = pid; fd = fd; events = 1; recv_buffer = [] }

abbrev pub with_connections : List Connection → Process → Process
with_connections nwcs p = record p { ctx = record (p.ctx) { nwc_hdr = nwcs } }

abbrev pub add_fd : Option ℕ → Option ℕ → Option ℕ
add_fd none m = m
add_fd (some fd) m = raise_max fd m

abbrev pub one_if : Option ℕ → List ℕ
one_if none = []
one_if (some fd) = fd ∷ []

-- The sets before the pass over the connections: `notify_fd[1]` sets `max_fd`, `listen_fd` raises it.
unfoldable pub own_sets : Process → FdSets
own_sets p = record {
  readfds = one_if p.ctx.listen_fd ++ one_if p.ctx.notify_fd1;
  writefds = [];
  max_fd = add_fd p.ctx.listen_fd (elim (p.ctx.notify_fd1) [ none ↦ p.max_fd | some fd ↦ some fd ]);
}

-- What a worker does with a command: `false` is `stop`.
unfoldable pub obey : Notice → Cmd Process Bool
obey notice =
    if notice.command.cmd == cmd_fd
    then (do
      on_fd nonblocking notice.fd
      p ← get
      put (with_connections (p.ctx.nwc_hdr ++ new_connection p.ctx.pid notice.fd ∷ []) p)
      pure true)
    else pure (not (notice.command.cmd == cmd_exit))

-- The turn for a command.
unfoldable pub take_command : Cmd Process Bool
unfolding worker_recv_msg obey
take_command = worker_recv_msg >>= obey

-- The command for a new descriptor, and the close of the master's own copy.
unfoldable pub give_away : (fd : ℕ) → WorkerContext → Cmd Process Bool
unfolding send_cmd
give_away fd ctx = do
  send_cmd ctx.notify_fd0 (record { cmd = cmd_fd; msg = b'f' ∷ b'd' ∷ [] }) (fd ∷ [])
  note_call (closed fd)
  pure true

-- What follows `accept`: `false` is `break`.
unfoldable pub take_accept : AcceptReply → Cmd Process Bool
unfolding give_away get_worker
take_accept (accept_failed errno) = pure (errno == eintr)
take_accept (accepted fd) = get_worker >>= give_away fd

-- The turn for a new connection.
unfoldable pub hand_over : Cmd Process Bool
unfolding take_accept next_accept
hand_over = next_accept >>= take_accept

-- `timeout` in milliseconds as a `timeval`.
abbrev pub timeval_of : ℕ → Option (ℕ × ℕ)
timeval_of timeout = if ltb 0 timeout then some (timeout / 1000, timeout % 1000 * 1000) else none

-- `if (timeout_ptr)` the kernel leaves there what is left of the time.
abbrev pub left_over : (ℕ × ℕ) → Option (ℕ × ℕ) → Option (ℕ × ℕ)
left_over left none = none
left_over left (some t) = some left

-- The variables once the closed connections are freed and the sets are filled.
abbrev pub watched : Process → List Connection × FdSets → Process
watched p w = record p { ctx = record (p.ctx) { nwc_hdr = w.0 }; max_fd = w.1.max_fd }

module _ (stray : List ℕ → Bool) where
  -- The turn for the connections, and the timeout of the next round.
  unfoldable pub serve_round : (readfds writefds : List ℕ) → Process → Cmd Process Bool
  unfolding serve_all
  serve_round readfds writefds p = do
    nwcs ← serve_all stray readfds writefds p.ctx.nwc_hdr
    put (record p {
      ctx = record (p.ctx) { nwc_hdr = nwcs };
      timeout_value = timeval_of p.ctx.timeout;
    })
    pure true

  -- What follows `select`, with the sets that it leaves.
  unfoldable pub dispatch_round : (readfds writefds : List ℕ) → Process → Cmd Process Bool
  unfolding take_command hand_over serve_round
  dispatch_round readfds writefds p =
      if is_set (λ _. false) p.ctx.notify_fd1 readfds
      then take_command
      else if is_set stray p.ctx.listen_fd readfds
      then hand_over
      else serve_round readfds writefds p

  unfoldable pub after_select : Process → SelectReply → Cmd Process Bool
  unfolding dispatch_round
  after_select p (select_failed errno) = do put p; pure (errno == eintr)
  after_select p (ready readfds writefds left) =
      let p' = record p { timeout_value = left_over left p.timeout_value } in
      put p' >> dispatch_round readfds writefds p'

  -- One round of `while(!stop)`: whether there is a next one.
  unfoldable pub worker_round : Cmd Process Bool
  unfolding own_sets watch_all after_select next_select
  worker_round s =
      let p = s.locals in
      let w = watch_all p.ctx.nwc_hdr (own_sets p) in
      (note_call (selected (nfds_of w.1.max_fd) w.1.readfds w.1.writefds p.timeout_value)
          >> (next_select >>= after_select (watched p w)))
        s

  -- `while(!stop)`, one turn of fuel for each round.
  unfoldable pub worker_loop : (fuel : ℕ) → Cmd Process (Unit {0})
  unfolding worker_round
  worker_loop zero s = hang
  worker_loop (suc k) s =
      let rest = worker_loop k in (worker_round >>= λ go. if go then rest else pure tt) s

  -- `worker`; `pid` is what `getpid` gives.
  unfoldable pub worker : (pid fuel : ℕ) → Cmd Process (Unit {0})
  unfolding worker_loop destroy_all
  worker pid fuel = do
    p ← get
    put (record p { ctx = record (p.ctx) { pid = some pid }; max_fd = none; timeout_value = none })
    worker_loop fuel
    p' ← get
    destroy_all p'.ctx.nwc_hdr
    on_fd closed p'.ctx.notify_fd1
