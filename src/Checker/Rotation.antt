-- ===== src/Checker/Rotation.antt =====
-- Which workers the master of nwchecker_server_multiprocess.c takes in turn: a turn with a new
-- connection.
use imooc_sock_core_tech.Prelude.{
  ℕ, ◌%◌, ◌≡◌, ◌≢◌, ◌==◌, get_elem?, refl, sym, ◌⊎◌, inl, inr, Bool, true, Option, none, some, List,
  [], ◌∷◌, ◌++◌, arith, Bool-cases,
}
use imooc_sock_core_tech.Outcome.{done}
use imooc_sock_core_tech.Wire.{u32_bytes}
use imooc_sock_core_tech.World.{AcceptReply, accepted, accept_failed}
use imooc_sock_core_tech.Checker.{
  Call, sent_bytes, sent_to, posted, nonblocking, reuse_address, bound_to, listens, selected,
  unlinked, named, controlled, closed, System, pure, ◌>>◌, >>=-done, note_call, next_ok,
  next_accept,
}
use imooc_sock_core_tech.Checker.Messages.{WorkerCmd, cmd_fd, worker_send_msg}
use imooc_sock_core_tech.Checker.Worker.{
  get_worker, send_cmd, give_away, take_accept, WorkerContext, Process, hand_over,
}

-- Every message among the calls went to one of two descriptors.
abbrev pub PostsTo : (a b : Option ℕ) → List Call → Type 0
PostsTo a b [] = Unit
PostsTo a b (posted fd bytes fds ∷ calls) = ((a ≡ some fd) ⊎ (b ≡ some fd)) × PostsTo a b calls
PostsTo a b (sent_bytes fd bytes ∷ calls) = PostsTo a b calls
PostsTo a b (sent_to fd bytes addr ∷ calls) = PostsTo a b calls
PostsTo a b (nonblocking fd ∷ calls) = PostsTo a b calls
PostsTo a b (reuse_address fd ∷ calls) = PostsTo a b calls
PostsTo a b (bound_to fd port ∷ calls) = PostsTo a b calls
PostsTo a b (listens fd ∷ calls) = PostsTo a b calls
PostsTo a b (selected n r w t ∷ calls) = PostsTo a b calls
PostsTo a b (closed fd ∷ calls) = PostsTo a b calls
PostsTo a b (unlinked path ∷ calls) = PostsTo a b calls
PostsTo a b (named fd path ∷ calls) = PostsTo a b calls
PostsTo a b (controlled fd adds events data_u64 ∷ calls) = PostsTo a b calls

pub PostsTo-append :
    (a b : Option ℕ) (xs ys : List Call) → PostsTo a b xs → PostsTo a b ys → PostsTo a b (xs ++ ys)
PostsTo-append a b [] ys h k = k
PostsTo-append a b (posted fd bytes fds ∷ xs) ys h k = (h.0, PostsTo-append a b xs ys h.1 k)
PostsTo-append a b (sent_bytes fd bytes ∷ xs) ys h k = PostsTo-append a b xs ys h k
PostsTo-append a b (sent_to fd bytes addr ∷ xs) ys h k = PostsTo-append a b xs ys h k
PostsTo-append a b (nonblocking fd ∷ xs) ys h k = PostsTo-append a b xs ys h k
PostsTo-append a b (reuse_address fd ∷ xs) ys h k = PostsTo-append a b xs ys h k
PostsTo-append a b (bound_to fd port ∷ xs) ys h k = PostsTo-append a b xs ys h k
PostsTo-append a b (listens fd ∷ xs) ys h k = PostsTo-append a b xs ys h k
PostsTo-append a b (selected n r w t ∷ xs) ys h k = PostsTo-append a b xs ys h k
PostsTo-append a b (closed fd ∷ xs) ys h k = PostsTo-append a b xs ys h k
PostsTo-append a b (unlinked path ∷ xs) ys h k = PostsTo-append a b xs ys h k
PostsTo-append a b (named fd path ∷ xs) ys h k = PostsTo-append a b xs ys h k
PostsTo-append a b (controlled fd adds events data_u64 ∷ xs) ys h k = PostsTo-append a b xs ys h k

ℕ_cases : (n : ℕ) → (n ≡ 0) ⊎ (n ≢ 0)
ℕ_cases n = elim (Bool-cases (n == 0)) [ inl e ↦ inl (ground arith) | inr e ↦ inr (ground arith) ]

-- The four workers, and the index at which the next turn starts, even or odd.
pub record IsAt (w0 w1 w2 w3 : WorkerContext) (parity : ℕ) (s : System Process) : Type 0 where
  pub workers : s.locals.worker_ctxs ≡ w0 ∷ w1 ∷ w2 ∷ w3 ∷ []
  pub index : s.locals.current_worker_index % 2 ≡ parity
  pub posts : PostsTo w0.notify_fd0 w2.notify_fd0 s.calls

module _ (w0 w1 w2 w3 : WorkerContext) where
  pick_even :
      (ws : List WorkerContext) (i : ℕ)
      → ws ≡ w0 ∷ w1 ∷ w2 ∷ w3 ∷ []
      → i % 2 ≡ 0
      → (w : WorkerContext) × (get_elem? ws (i % 4) ≡ some w) × ((w ≡ w0) ⊎ (w ≡ w2))
  pick_even ws i e even = elim (ℕ_cases (i % 4)) [
    | inl first ↦ (w0, rw (e, first), inl refl)
    | inr other ↦ (w2, rw (e, third other), inr refl)
  ]
    where
      third : i % 4 ≢ 0 → i % 4 ≡ 2
      third other = omega arith

  -- The worker at an even index, and some worker at an odd one.
  get_worker-even :
      (s t : System Process) (w : WorkerContext)
      → IsAt w0 w1 w2 w3 0 s
      → get_worker s ≡ done (w, t)
      → IsAt w0 w1 w2 w3 1 t × ((w ≡ w0) ⊎ (w ≡ w2))
  unfolding get_worker
  get_worker-even s t w h e =
      let (w', here, which) =
        pick_even s.locals.worker_ctxs s.locals.current_worker_index h.workers h.index in
      ground (arith, here, which)

  get_worker-odd :
      (s t : System Process) (w : WorkerContext)
      → IsAt w0 w1 w2 w3 1 s
      → get_worker s ≡ done (w, t)
      → IsAt w0 w1 w2 w3 0 t
  unfolding get_worker
  get_worker-odd s t w h e = ground arith

  worker_send_msg-IsAt :
      (parity : ℕ) (fd : Option ℕ) (bytes fds : List ℕ) (s t : System Process)
      → (fd ≡ w0.notify_fd0) ⊎ (fd ≡ w2.notify_fd0)
      → IsAt w0 w1 w2 w3 parity s
      → worker_send_msg fd bytes fds s ≡ done (tt, t)
      → IsAt w0 w1 w2 w3 parity t
  unfolding worker_send_msg next_ok
  worker_send_msg-IsAt parity none bytes fds s t to h e = ground arith
  worker_send_msg-IsAt parity (some f) bytes fds s t to h e =
      let added =
        PostsTo-append w0.notify_fd0 w2.notify_fd0 s.calls (posted f bytes fds ∷ []) h.posts
          (elim to [ inl a ↦ (inl (sym a), tt) | inr a ↦ (inr (sym a), tt) ]) in
      ground (arith, added)

  send_cmd-IsAt :
      (fd : Option ℕ) (cmd : WorkerCmd) (fds : List ℕ) (s t : System Process)
      → (fd ≡ w0.notify_fd0) ⊎ (fd ≡ w2.notify_fd0)
      → IsAt w0 w1 w2 w3 1 s
      → send_cmd fd cmd fds s ≡ done (tt, t)
      → IsAt w0 w1 w2 w3 0 t
  unfolding send_cmd
  send_cmd-IsAt fd cmd fds s t to h e =
      let bytes = u32_bytes cmd.cmd ++ cmd.msg in
      let (w, s1, got, sends) =
        >>=-done get_worker (λ (ctx : WorkerContext). worker_send_msg fd bytes fds) s t tt e in
      worker_send_msg-IsAt 0 fd bytes fds s1 t to (get_worker-odd s s1 w h got) sends

  pub note-IsAt :
      (parity : ℕ) (call : Call) (s : System Process)
      → PostsTo w0.notify_fd0 w2.notify_fd0 (call ∷ [])
      → IsAt w0 w1 w2 w3 parity s
      → IsAt w0 w1 w2 w3 parity (record s { calls = s.calls ++ call ∷ [] })
  note-IsAt parity call s quiet h = record {
    workers = h.workers;
    index = h.index;
    posts = PostsTo-append w0.notify_fd0 w2.notify_fd0 s.calls (call ∷ []) h.posts quiet;
  }

  give_away-IsAt :
      (fd : ℕ) (w : WorkerContext) (s t : System Process) (go : Bool)
      → (w ≡ w0) ⊎ (w ≡ w2)
      → IsAt w0 w1 w2 w3 1 s
      → give_away fd w s ≡ done (go, t)
      → IsAt w0 w1 w2 w3 0 t
  unfolding give_away
  give_away-IsAt fd w s t go which h e =
      let cmd : WorkerCmd = record { cmd = cmd_fd; msg = b'f' ∷ b'd' ∷ [] } in
      let (_, s1, sends, ends) =
        >>=-done (send_cmd w.notify_fd0 cmd (fd ∷ []))
          (λ (u : Unit {0}). note_call (closed fd) >> pure true) s t go e in
      let same = send_cmd-IsAt w.notify_fd0 cmd (fd ∷ []) s s1 (ground arith) h sends in
      ground (arith, note-IsAt 0 (closed fd) s1 tt same)

  take_accept-IsAt :
      (reply : AcceptReply) (s t : System Process) (go : Bool)
      → IsAt w0 w1 w2 w3 0 s
      → take_accept reply s ≡ done (go, t)
      → IsAt w0 w1 w2 w3 0 t
  unfolding take_accept
  take_accept-IsAt (accept_failed errno) s t go h e = ground arith
  take_accept-IsAt (accepted fd) s t go h e =
      let (w, s1, got, gives) = >>=-done get_worker (give_away fd) s t go e in
      let (odd, which) = get_worker-even s s1 w h got in give_away-IsAt fd w s1 t go which odd gives

  pub hand_over-IsAt :
      (s t : System Process) (go : Bool)
      → IsAt w0 w1 w2 w3 0 s
      → hand_over s ≡ done (go, t)
      → IsAt w0 w1 w2 w3 0 t
  unfolding hand_over
  hand_over-IsAt s t go h e =
      let (reply, s1, got, takes) = >>=-done next_accept take_accept s t go e in
      take_accept-IsAt reply s1 t go (next_accept-same s s1 reply h got) takes
    where
      next_accept-same :
          (s s1 : System Process) (reply : AcceptReply)
          → IsAt w0 w1 w2 w3 0 s
          → next_accept s ≡ done (reply, s1)
          → IsAt w0 w1 w2 w3 0 s1
      next_accept-same s s1 reply h got = unfold next_accept in ground arith
