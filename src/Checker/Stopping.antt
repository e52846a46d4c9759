-- ===== src/Checker/Stopping.antt =====
-- How `worker` of nwchecker_server_multiprocess.c (04-24_UNIX异步IO机制) ends.
use imooc_sock_core_tech.Prelude.{
  ℕ, suc, ◌≡◌, refl, Bool, true, false, Option, none, some, List, [], ◌∷◌, ◌++◌, arith, has, ◌==◌,
  Option-cases, inl, inr, append_assoc, ◌∙◌, append-nil,
}
use imooc_sock_core_tech.Outcome.{done}
use imooc_sock_core_tech.Types.{eintr}
use imooc_sock_core_tech.World.{AcceptReply, accept_failed}
use imooc_sock_core_tech.Checker.{
  Connection, Call, closed, selected, ready, SelectReply, System, FdSets, nfds_of, is_set,
  next_select, next_accept, next_message, message, MessageReply, Control,
}
use imooc_sock_core_tech.Checker.Answering.{destroy_all, watch, watch_all}
use imooc_sock_core_tech.Wire.{u32_bytes, read_u32}
use imooc_sock_core_tech.Checker.Messages.{cmd_exit, copy_rights, scatter, worker_recv_msg}
use imooc_sock_core_tech.Checker.Worker.{
  Process, own_sets, watched, take_accept, take_command, obey, hand_over, dispatch_round,
  after_select, worker_round, worker_loop, worker,
}

-- A close of every descriptor, in order.
abbrev pub closes : List Connection → List Call
closes [] = []
closes (nwc ∷ nwcs) = elim (nwc.fd) [ none ↦ closes nwcs | some fd ↦ closed fd ∷ closes nwcs ]

abbrev pub close_if : Option ℕ → List Call
close_if none = []
close_if (some fd) = closed fd ∷ []

destroy_all-closes :
    (nwcs : List Connection) (s : System Process)
    → destroy_all nwcs s ≡ done (tt, record s { calls = s.calls ++ closes nwcs })
unfolding destroy_all
destroy_all-closes [] s = ground (arith, append-nil s.calls)
destroy_all-closes (nwc ∷ nwcs) s = elim (Option-cases nwc.fd) [
  | inl shut ↦ ground (arith, destroy_all-closes nwcs s)
  | inr (fd, held) ↦ ground (
    arith,
    destroy_all-closes nwcs (record s { calls = s.calls ++ closed fd ∷ [] }),
    append_assoc s.calls (closed fd ∷ []) (closes nwcs),
  )
]

-- The state in which `worker` starts its loop.
abbrev pub started : (pid : ℕ) → System Process → System Process
started pid s = record s {
  locals = record (s.locals) {
    ctx = record (s.locals.ctx) { pid = some pid };
    max_fd = none;
    timeout_value = none;
  };
}

abbrev pub all_closed : System Process → List Call
all_closed t = closes t.locals.ctx.nwc_hdr ++ close_if t.locals.ctx.notify_fd1

module _ (stray : List ℕ → Bool) (pid : ℕ) where
  last_round :
      (k : ℕ) (s t : System Process)
      → worker_round stray (started pid s) ≡ done (false, t)
      → worker stray pid (suc k) s ≡ done (tt, record t { calls = t.calls ++ all_closed t })
  unfolding worker worker_loop
  last_round k s t e = elim (Option-cases t.locals.ctx.notify_fd1) [
    | inl shut ↦
        ground (
          arith,
          destroy_all-closes t.locals.ctx.nwc_hdr t,
          append-nil (closes t.locals.ctx.nwc_hdr),
        )
    | inr (fd, held) ↦ ground (
      arith,
      destroy_all-closes t.locals.ctx.nwc_hdr t,
      append_assoc t.calls (closes t.locals.ctx.nwc_hdr) (closed fd ∷ []),
    )
  ]

closes-watch_all :
    (nwcs : List Connection) (sets : FdSets) → closes (watch_all nwcs sets).0 ≡ closes nwcs
unfolding watch_all
closes-watch_all [] sets = refl
closes-watch_all (nwc ∷ nwcs) sets = elim (Option-cases nwc.fd) [
  | inl shut ↦ ground (arith, closes-watch_all nwcs sets)
  | inr (fd, held) ↦ ground (arith, closes-watch_all nwcs (watch fd nwc.events sets))
]

-- What the first round asks of `select`.
abbrev pub question : Process → Call
question p =
    let w = watch_all p.ctx.nwc_hdr (own_sets p) in
    selected (nfds_of w.1.max_fd) w.1.readfds w.1.writefds p.timeout_value

module _ (stray : List ℕ → Bool) (pid : ℕ) (readfds writefds : List ℕ) (left : ℕ × ℕ)
    (selects : List SelectReply) where
  -- The state after the pass over the connections and the answer of `select`.
  abbrev answered : System Process → System Process
  answered s =
      let p = (started pid s).locals in
      record s {
        locals = watched p (watch_all p.ctx.nwc_hdr (own_sets p));
        selects = selects;
        calls = s.calls ++ question p ∷ [];
      }

  first_round :
      (s : System Process)
      → s.selects ≡ ready readfds writefds left ∷ selects
      → worker_round stray (started pid s)
        ≡ dispatch_round stray readfds writefds (answered s).locals (answered s)
  unfolding worker_round after_select next_select
  first_round s e = ground (arith)

  ends_here :
      (k : ℕ) (s t : System Process)
      → s.selects ≡ ready readfds writefds left ∷ selects
      → dispatch_round stray readfds writefds (answered s).locals (answered s) ≡ done (false, t)
      → t.calls ≡ (answered s).calls
      → t.locals ≡ (answered s).locals
      → (u : System Process) × (worker stray pid (suc k) s ≡ done (tt, u))
        × (u.calls
            ≡ s.calls
              ++ (question (started pid s).locals ∷ closes s.locals.ctx.nwc_hdr
                  ++ close_if s.locals.ctx.notify_fd1))
  ends_here k s t asked e calls locals =
      let p = (started pid s).locals in
      let rest = closes p.ctx.nwc_hdr ++ close_if p.ctx.notify_fd1 in
      (
        record t { calls = t.calls ++ all_closed t },
        last_round stray pid k s t (first_round s asked ∙ e),
        ground (
          arith,
          closes-watch_all p.ctx.nwc_hdr (own_sets p),
          append_assoc s.calls (question p ∷ []) rest,
        ),
      )

  module _ (k : ℕ) (s : System Process)
      (asked : s.selects ≡ ready readfds writefds left ∷ selects) where
    -- A worker, or the master, whose first round finds its listening descriptor readable and its
    -- notifying one not, and whose accept then fails with any error but an interruption, ends: it
    -- asks `select` once, then closes every open connection and its notifying descriptor, and does
    -- nothing else. `stray` says whether a listening descriptor of -1 counts as readable.
    pub refused_accept_ends :
        (errno : ℕ) (accepts : List AcceptReply)
        → is_set (λ _. false) s.locals.ctx.notify_fd1 readfds ≡ false
        → is_set stray s.locals.ctx.listen_fd readfds ≡ true
        → s.accepts ≡ accept_failed errno ∷ accepts
        → (errno == eintr) ≡ false
        → (u : System Process) × (worker stray pid (suc k) s ≡ done (tt, u))
          × (u.calls
              ≡ s.calls
                ++ (question (started pid s).locals ∷ closes s.locals.ctx.nwc_hdr
                    ++ close_if s.locals.ctx.notify_fd1))
    unfolding dispatch_round hand_over take_accept next_accept
    refused_accept_ends errno accepts quiet waiting refused hard =
        ends_here k s (record (answered s) { accepts = accepts }) asked (ground arith) refl refl

    -- A worker whose first round finds the exit command on its notifying descriptor, with controls
    -- of which none carries more than one descriptor, ends after this round: it asks `select` once,
    -- then closes every open connection and its notifying descriptor, and does nothing else.
    pub exit_command_ends :
        (fd : ℕ) (text : List ℕ) (controls : List Control) (copied : Option ℕ)
        (messages : List MessageReply)
        → s.locals.ctx.notify_fd1 ≡ some fd
        → has fd readfds ≡ true
        → s.messages ≡ message (u32_bytes cmd_exit ++ text) controls ∷ messages
        → copy_rights controls none ≡ some copied
        → (u : System Process) × (worker stray pid (suc k) s ≡ done (tt, u))
          × (u.calls
              ≡ s.calls
                ++ (question (started pid s).locals ∷ closes s.locals.ctx.nwc_hdr
                    ++ close_if s.locals.ctx.notify_fd1))
    unfolding dispatch_round take_command obey worker_recv_msg next_message scatter u32_bytes
        read_u32
    exit_command_ends fd text controls copied messages held noticed sent_to copies =
        ends_here k s (record (answered s) { messages = messages }) asked (ground arith) refl refl
