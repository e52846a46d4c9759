-- ===== src/Checker/Balance.antt =====
-- Which workers the master of nwchecker_server_multiprocess.c gives its connections to, over any
-- number of rounds.
use imooc_sock_core_tech.Prelude.{
  ℕ, ◌≡◌, Bool, true, false, List, [], ◌∷◌, ◌++◌, arith, if◌then◌else◌,
}
use imooc_sock_core_tech.Outcome.{done}
use imooc_sock_core_tech.Checker.{
  Connection, selected, System, pure, ◌>>◌, >>=-done, put, SelectReply, select_failed, ready,
  next_select, nfds_of, FdSets, is_set,
}
use imooc_sock_core_tech.Checker.Answering.{watch_all, serve_all}
use imooc_sock_core_tech.Checker.Worker.{
  WorkerContext, Process, take_command, hand_over, serve_round, dispatch_round, watched, timeval_of,
  left_over, own_sets, after_select, worker_round,
}
use imooc_sock_core_tech.Checker.Rotation.{IsAt, note-IsAt, hand_over-IsAt}
use imooc_sock_core_tech.Checker.OtherTurns.{take_command-IsAt, serve_all-IsAt}

module _ (w0 w1 w2 w3 : WorkerContext) where
  watched-IsAt :
      (s : System Process) (w : List Connection × FdSets)
      → IsAt w0 w1 w2 w3 0 s
      → IsAt w0 w1 w2 w3 0 (record s { locals = watched s.locals w })
  watched-IsAt s w h = record { workers = h.workers; index = h.index; posts = h.posts }

  module _ (stray : List ℕ → Bool) where
    serve_round-IsAt :
        (readfds writefds : List ℕ) (p : Process) (s t : System Process) (go : Bool)
        → IsAt w0 w1 w2 w3 0 s
        → IsAt w0 w1 w2 w3 0 (record s { locals = p })
        → serve_round stray readfds writefds p s ≡ done (go, t)
        → IsAt w0 w1 w2 w3 0 t
    unfolding serve_round
    serve_round-IsAt readfds writefds p s t go h hp e =
        let (nwcs, s1, served, ends) =
          >>=-done (serve_all stray readfds writefds p.ctx.nwc_hdr)
            (λ (nwcs : List Connection).
              put (record p {
                ctx = record (p.ctx) { nwc_hdr = nwcs };
                timeout_value = timeval_of p.ctx.timeout;
              })
              >> pure true)
            s t go e in
        let kept =
          serve_all-IsAt w0 w1 w2 w3 stray readfds writefds p.ctx.nwc_hdr s s1 nwcs h served in
        ground (arith, kept)

    dispatch_round-IsAt :
        (readfds writefds : List ℕ) (p : Process) (s t : System Process) (go : Bool)
        → IsAt w0 w1 w2 w3 0 s
        → IsAt w0 w1 w2 w3 0 (record s { locals = p })
        → dispatch_round stray readfds writefds p s ≡ done (go, t)
        → IsAt w0 w1 w2 w3 0 t
    unfolding dispatch_round
    dispatch_round-IsAt readfds writefds p s t go h hp e =
        branch (is_set (λ _. false) p.ctx.notify_fd1 readfds) (is_set stray p.ctx.listen_fd readfds)
          e
      where
        branch :
            (b c : Bool)
            → (if b
                  then take_command
                  else if c
                  then hand_over
                  else serve_round stray readfds writefds p)
                s
              ≡ done (go, t)
            → IsAt w0 w1 w2 w3 0 t
        branch true c e = take_command-IsAt w0 w1 w2 w3 s t go h e
        branch false true e = hand_over-IsAt w0 w1 w2 w3 s t go h e
        branch false false e = serve_round-IsAt readfds writefds p s t go h hp e

    after_select-IsAt :
        (p : Process) (reply : SelectReply) (s t : System Process) (go : Bool)
        → IsAt w0 w1 w2 w3 0 (record s { locals = p })
        → after_select stray p reply s ≡ done (go, t)
        → IsAt w0 w1 w2 w3 0 t
    unfolding after_select
    after_select-IsAt p (select_failed errno) s t go h e = ground arith
    after_select-IsAt p (ready readfds writefds left) s t go h e =
        let p' : Process = record p { timeout_value = left_over left p.timeout_value } in
        let h' : IsAt w0 w1 w2 w3 0 (record s { locals = p' }) = record {
          workers = h.workers;
          index = h.index;
          posts = h.posts;
        } in
        dispatch_round-IsAt readfds writefds p' (record s { locals = p' }) t go h' h' e

    next_select-IsAt :
        (p : Process) (s t : System Process) (reply : SelectReply)
        → IsAt w0 w1 w2 w3 0 (record s { locals = p })
        → next_select s ≡ done (reply, t)
        → IsAt w0 w1 w2 w3 0 (record t { locals = p })
    unfolding next_select
    next_select-IsAt p s t reply h e = ground arith

    worker_round-IsAt :
        (s t : System Process) (go : Bool)
        → IsAt w0 w1 w2 w3 0 s
        → worker_round stray s ≡ done (go, t)
        → IsAt w0 w1 w2 w3 0 t
    unfolding worker_round
    worker_round-IsAt s t go h e =
        let w = watch_all s.locals.ctx.nwc_hdr (own_sets s.locals) in
        let p = watched s.locals w in
        let call = selected (nfds_of w.1.max_fd) w.1.readfds w.1.writefds s.locals.timeout_value in
        let s0 : System Process = record s { calls = s.calls ++ call ∷ [] } in
        let (reply, s1, asked, rest) = >>=-done next_select (after_select stray p) s0 t go e in
        after_select-IsAt p reply s1 t go
          (next_select-IsAt p s0 s1 reply (watched-IsAt s0 w (note-IsAt w0 w1 w2 w3 0 call s tt h))
            asked)
          rest

-- The states that any number of rounds leads to.
pub data Rounds (stray : List ℕ → Bool) (s : System Process) : System Process → Type 0 where
  here : Rounds stray s s
  next :
      {t u : System Process} {go : Bool}
      → Rounds stray s t
      → worker_round stray t ≡ done (go, u)
      → Rounds stray s u

module _ (w0 w1 w2 w3 : WorkerContext) (stray : List ℕ → Bool) where
  pub Rounds-IsAt :
      (s : System Process) {t : System Process}
      → IsAt w0 w1 w2 w3 0 s
      → Rounds stray s t
      → IsAt w0 w1 w2 w3 0 t
  Rounds-IsAt s h here = h
  Rounds-IsAt s h (next {t} {u} {go} r e) =
      worker_round-IsAt w0 w1 w2 w3 stray t u go (Rounds-IsAt s h r) e
