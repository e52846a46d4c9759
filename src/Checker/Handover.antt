-- ===== src/Checker/Handover.antt =====
-- A connection on its way from the master to a worker (nwchecker_server_multiprocess.c of
-- 04-24_UNIX异步IO机制).
use imooc_sock_core_tech.Prelude.{
  ℕ, ◌+◌, ◌%◌, ◌^◌, ◌<◌, ◌≤◌, ◌≡◌, Bool, true, some, List, [], ◌∷◌, ◌++◌, arith, length, take-all,
  get_elem?, append_assoc,
}
use imooc_sock_core_tech.Outcome.{done}
use imooc_sock_core_tech.World.{AcceptReply, accepted}
use imooc_sock_core_tech.Wire.{u32_bytes, read_u32}
use imooc_sock_core_tech.Checker.{
  message, MessageReply, posted, closed, nonblocking, System, next_accept, next_message, next_ok,
}
use imooc_sock_core_tech.Checker.Messages.{
  cmd_fd, scm_rights, copy_rights, scatter, worker_send_msg, worker_recv_msg,
}
use imooc_sock_core_tech.Checker.Worker.{
  WorkerContext, Process, get_worker, send_cmd, give_away, take_accept, hand_over, obey,
  take_command, with_connections, new_connection,
}

pub scatter-encode :
    (c : ℕ) (msg : List ℕ)
    → c < 2 ^ 32
    → length msg ≤ 7
    → scatter (u32_bytes c ++ msg) ≡ some (record { cmd = c; msg = msg })
unfolding scatter u32_bytes read_u32
scatter-encode c msg small short = ground (arith, take-all 7 msg short)

module _ (s : System Process) (w v : WorkerContext) (n fd : ℕ) (oks : List Bool)
    (accepts : List AcceptReply) where
  -- The master of the multi-process server hands an accepted connection over: where the next worker
  -- and the one behind it are known, the next worker's end of its socket pair is open and the send
  -- succeeds, `hand_over` ends with exactly a message with the descriptor on that worker's end and
  -- a close of the descriptor here, and the index is moved on by two. The bytes of the message are
  -- such that any worker that is told to read them, with the descriptor as `fd'`, makes `fd'`
  -- non-blocking and adds a connection for it, and nothing else, behind its other ones.
  pub handed_over :
      (q : System Process) (fd' : ℕ) (messages : List MessageReply)
      → get_elem? s.locals.worker_ctxs (s.locals.current_worker_index % 4) ≡ some w
      → get_elem? s.locals.worker_ctxs ((s.locals.current_worker_index % 4 + 1) % 4) ≡ some v
      → w.notify_fd0 ≡ some n
      → s.accepts ≡ accepted fd ∷ accepts
      → s.oks ≡ true ∷ oks
      → (bytes : List ℕ) × (hand_over s
          ≡ done (
            true,
            record s {
              locals = record (s.locals) {
                current_worker_index = (s.locals.current_worker_index % 4 + 1) % 4 + 1;
              };
              accepts = accepts;
              oks = oks;
              calls = s.calls ++ posted n bytes (fd ∷ []) ∷ closed fd ∷ [];
            },
          ))
        × (take_command (record q {
          messages =
              message bytes (record { cmsg_type = scm_rights; cmsg_data = fd' ∷ [] } ∷ [])
              ∷ messages;
        })
            ≡ done (
              true,
              record q {
                locals =
                    with_connections
                      (q.locals.ctx.nwc_hdr ++ new_connection q.locals.ctx.pid (some fd') ∷ [])
                      q.locals;
                messages = messages;
                calls = q.calls ++ nonblocking fd' ∷ [];
              },
            ))
  unfolding hand_over take_accept next_accept get_worker give_away send_cmd worker_send_msg next_ok
      take_command worker_recv_msg next_message obey scatter read_u32 u32_bytes copy_rights
  handed_over q fd' messages here there open_fd waiting sends = (
    u32_bytes cmd_fd ++ b'f' ∷ b'd' ∷ [],
    ground (
      arith,
      append_assoc s.calls (posted n (u32_bytes cmd_fd ++ b'f' ∷ b'd' ∷ []) (fd ∷ []) ∷ [])
          (closed fd ∷ []),
    ),
    ground (arith),
  )
