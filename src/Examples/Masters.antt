-- ===== src/Examples/Masters.antt =====
-- The server in several processes (Checker): its master and its workers.
use imooc_sock_core_tech.Prelude.{
  ℕ, ◌≡◌, refl, true, none, some, List, [], ◌∷◌, ◌++◌, has, map, ◌||◌,
}
use imooc_sock_core_tech.Outcome.{done}
use imooc_sock_core_tech.World.{received, sent, accepted, accept_failed}
use imooc_sock_core_tech.Wire.{u32_bytes}
use imooc_sock_core_tech.Examples.Data.{never, system_of}
use imooc_sock_core_tech.Checker.{
  message, ready, posted, closed, nonblocking, selected, System, next_ok, reads, writes,
}
use imooc_sock_core_tech.Checker.Answering.{watch_all, serve_all}
use imooc_sock_core_tech.Checker.Messages.{cmd_exit, scm_rights}
use imooc_sock_core_tech.Checker.Worker.{
  WorkerContext, Process, hand_over, take_command, own_sets, one_if, with_connections,
  new_connection, worker_round, worker,
}
use imooc_sock_core_tech.Checker.Master.{spawned, spawn_workers}
use imooc_sock_core_tech.Checker.Rotation.{PostsTo}
use imooc_sock_core_tech.Checker.Balance.{here, next}
use imooc_sock_core_tech.Checker.Workforce.{worker_at, spawn_workers-PostsTo}
use imooc_sock_core_tech.Checker.Handover.{handed_over}
use imooc_sock_core_tech.Checker.Serving.{Turn, pongs_of, after_turn, serve_all-pongs}
use imooc_sock_core_tech.Checker.Watching.{still_open, asks, AreBelow, round_sets}
use imooc_sock_core_tech.Checker.Stopping.{closes, close_if, question, started, refused_accept_ends}

-- The static variables before the workers are made.
abbrev zero_context : WorkerContext
zero_context = record {
  pid = some 0;
  notify_fd0 = some 0;
  notify_fd1 = some 0;
  listen_fd = some 0;
  timeout = 0;
  nwc_hdr = [];
}

abbrev master_context : WorkerContext
master_context = record {
  pid = some 99;
  notify_fd0 = some 20;
  notify_fd1 = some 21;
  listen_fd = some 9;
  timeout = 0;
  nwc_hdr = [];
}

abbrev no_process : Process
no_process = record {
  ctx = zero_context;
  max_fd = none;
  timeout_value = none;
  current_worker_index = 0;
  worker_ctxs = zero_context ∷ zero_context ∷ zero_context ∷ zero_context ∷ [];
}

-- Two clients come, at the listening socket 9.
abbrev before_workers : System Process
before_workers = record (system_of no_process) {
  pairs = some (10, 11) ∷ some (12, 13) ∷ some (14, 15) ∷ some (16, 17) ∷ [];
  forks = some 101 ∷ some 102 ∷ some 103 ∷ some 104 ∷ [];
  oks = true ∷ true ∷ [];
  selects = ready (9 ∷ []) [] (0, 0) ∷ ready (9 ∷ []) [] (0, 0) ∷ [];
  accepts = accepted 30 ∷ accepted 31 ∷ [];
}

abbrev four : List WorkerContext
four = worker_at 5 101 10 ∷ worker_at 5 102 12 ∷ worker_at 5 103 14 ∷ worker_at 5 104 16 ∷ []

abbrev with_workers : System Process
with_workers = record before_workers {
  locals = record no_process { worker_ctxs = four };
  pairs = [];
  forks = [];
  calls = closed 11 ∷ closed 13 ∷ closed 15 ∷ closed 17 ∷ [];
}

workers_made : spawn_workers never 99 5 4 0 5 before_workers ≡ done (spawned, with_workers)
unfolding spawn_workers
workers_made = refl

abbrev master : System Process
master = record with_workers { locals = record (with_workers.locals) { ctx = master_context } }

abbrev fd_bytes : List ℕ
fd_bytes = 2 ∷ 0 ∷ 0 ∷ 0 ∷ b'f' ∷ b'd' ∷ []

abbrev one_round : System Process
one_round = record master {
  locals = record (master.locals) { max_fd = some 21; current_worker_index = 2 };
  oks = true ∷ [];
  selects = ready (9 ∷ []) [] (0, 0) ∷ [];
  accepts = accepted 31 ∷ [];
  calls =
      master.calls
      ++ selected 22 (9 ∷ 21 ∷ []) [] none ∷ posted 10 fd_bytes (30 ∷ []) ∷ closed 30 ∷ [];
}

first_client : worker_round never master ≡ done (true, one_round)
unfolding worker_round u32_bytes next_ok
first_client = refl

abbrev two_rounds : System Process
two_rounds = record one_round {
  locals = record (one_round.locals) { current_worker_index = 4 };
  oks = [];
  selects = [];
  accepts = [];
  calls =
      one_round.calls
      ++ selected 22 (9 ∷ 21 ∷ []) [] none ∷ posted 14 fd_bytes (31 ∷ []) ∷ closed 31 ∷ [];
}

second_client : worker_round never one_round ≡ done (true, two_rounds)
unfolding worker_round u32_bytes next_ok
second_client = refl

spawn_workers-PostsTo_example : PostsTo (some 10) (some 14) two_rounds.calls
spawn_workers-PostsTo_example =
    spawn_workers-PostsTo never 99 5 5 10 11 12 13 14 15 16 17 100 101 102 103 [] [] zero_context
      zero_context zero_context zero_context master_context before_workers with_workers two_rounds
      refl refl tt refl refl workers_made (next (next here first_client) second_client)

-- A worker that has the connections 30, which sent "ping", and 31, which sent nothing.
abbrev ping_bytes : List ℕ
ping_bytes = b'p' ∷ b'i' ∷ b'n' ∷ b'g' ∷ []

abbrev pinging : Turn
pinging = record {
  nwc = new_connection (some 101) (some 30);
  fd = 30;
  byte = b'p';
  bytes = b'i' ∷ b'n' ∷ b'g' ∷ [];
}

abbrev silent : Turn
silent = record { nwc = new_connection (some 101) (some 31); fd = 31; byte = 0; bytes = [] }

abbrev one_worker : Process
one_worker = record no_process {
  ctx = record zero_context {
    pid = some 101;
    notify_fd0 = none;
    notify_fd1 = some 11;
    listen_fd = none;
    nwc_hdr = pinging.nwc ∷ silent.nwc ∷ [];
  };
}

abbrev worker_system : System Process
worker_system = record (system_of one_worker) {
  recvs = received ping_bytes ∷ [];
  sends = sent 4 ∷ sent 4 ∷ [];
  selects = ready (11 ∷ []) [] (0, 0) ∷ [];
  messages = message (u32_bytes cmd_exit ++ b'e' ∷ []) [] ∷ [];
}

handed_over_example :
    (bytes : List ℕ) × (hand_over master
      ≡ done (
        true,
        record master {
          locals = record (master.locals) { current_worker_index = 2 };
          accepts = accepted 31 ∷ [];
          oks = true ∷ [];
          calls = master.calls ++ posted 10 bytes (30 ∷ []) ∷ closed 30 ∷ [];
        },
      ))
    × (take_command (record worker_system {
      messages = message bytes (record { cmsg_type = scm_rights; cmsg_data = 40 ∷ [] } ∷ []) ∷ [];
    })
        ≡ done (
          true,
          record worker_system {
            locals =
                with_connections
                  (pinging.nwc ∷ silent.nwc ∷ new_connection (some 101) (some 40) ∷ [])
                  one_worker;
            messages = [];
            calls = nonblocking 40 ∷ [];
          },
        ))
handed_over_example =
    handed_over master (worker_at 5 101 10) (worker_at 5 102 12) 10 30 (true ∷ [])
      (accepted 31 ∷ []) worker_system 40 [] refl refl refl refl refl

serve_all-pongs_example :
    serve_all never (30 ∷ []) [] (pinging.nwc ∷ silent.nwc ∷ []) worker_system
    ≡ done (
      map (after_turn (30 ∷ []) []) (pinging ∷ silent ∷ []),
      record worker_system {
        recvs = [];
        sends = [];
        calls = pongs_of (30 ∷ []) [] (pinging ∷ silent ∷ []);
      },
    )
serve_all-pongs_example =
    serve_all-pongs never (30 ∷ []) [] (pinging ∷ silent ∷ []) worker_system [] []
      (refl, (refl, tt)) refl refl

round_sets_example :
    let (left, sets) = watch_all one_worker.ctx.nwc_hdr (own_sets one_worker) in
    (left ≡ still_open one_worker.ctx.nwc_hdr)
    × (has 30 sets.readfds ≡ (
        has 30 (one_if one_worker.ctx.listen_fd ++ one_if one_worker.ctx.notify_fd1)
        || asks reads 30 one_worker.ctx.nwc_hdr))
    × (has 30 sets.writefds ≡ asks writes 30 one_worker.ctx.nwc_hdr)
    × AreBelow sets
round_sets_example = round_sets one_worker 30

abbrev refusing : System Process
refusing = record master { accepts = accept_failed 11 ∷ [] }

-- EAGAIN ends the server.
refused_accept_ends_example :
    (u : System Process) × (worker never 99 5 refusing ≡ done (tt, u))
    × (u.calls
        ≡ refusing.calls
          ++ (question (started 99 refusing).locals ∷ closes refusing.locals.ctx.nwc_hdr
              ++ close_if refusing.locals.ctx.notify_fd1))
refused_accept_ends_example =
    refused_accept_ends never 99 (9 ∷ []) [] (0, 0) (ready (9 ∷ []) [] (0, 0) ∷ []) 4 refusing refl
      11 [] refl refl refl refl
