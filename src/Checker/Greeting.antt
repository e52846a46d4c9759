-- ===== src/Checker/Greeting.antt =====
-- A round of the TCP server (nwchecker_server.c of 04-24_UNIX异步IO机制) with a new connection.
use imooc_sock_core_tech.Prelude.{
  ℕ, ◌≡◌, ◌≢◌, refl, ◌∙◌, ap, Bool, true, none, some, List, [], ◌∷◌, ◌++◌, map, arith, has,
  append_assoc,
}
use imooc_sock_core_tech.Outcome.{done}
use imooc_sock_core_tech.World.{RecvReply, SendReply, AcceptReply, accepted}
use imooc_sock_core_tech.Checker.{
  Connection, Call, System, SelectReply, ready, selected, nonblocking, FdSets, nfds_of, next_select,
  next_accept,
}
use imooc_sock_core_tech.Checker.Answering.{watch_all}
use imooc_sock_core_tech.Checker.Worker.{new_connection, timeval_of, left_over}
use imooc_sock_core_tech.Checker.Watching.{still_open, watch_all-has}
use imooc_sock_core_tech.Checker.Serving.{
  Turn, AreOpen, recvs_of, sends_of, pongs_of, after_turn, serve_all-pongs,
}
use imooc_sock_core_tech.Checker.Server.{
  ServerState, accept_connection, server_serve, server_dispatch, server_selected, server_round,
}
use imooc_sock_core_tech.Checker.Echo.{echo_all-serve_all}

abbrev pub connections_of : List Turn → List Connection
connections_of = map (λ (t : Turn). t.nwc)

-- The turn of a connection that was just accepted.
abbrev pub new_turn : (fd : ℕ) → Turn
new_turn fd = record { nwc = new_connection none (some fd); fd = fd; byte = 0; bytes = [] }

connections_of-append :
    (ts us : List Turn) → connections_of (ts ++ us) ≡ connections_of ts ++ connections_of us
connections_of-append [] us = refl
connections_of-append (t ∷ ts) us = ground (arith, connections_of-append ts us)

AreOpen-append : (ts us : List Turn) → AreOpen ts → AreOpen us → AreOpen (ts ++ us)
AreOpen-append [] us h k = k
AreOpen-append (t ∷ ts) us h k = (h.0, AreOpen-append ts us h.1 k)

still_open-all : (ts : List Turn) → AreOpen ts → still_open (connections_of ts) ≡ connections_of ts
still_open-all [] h = refl
still_open-all (t ∷ ts) h = ground (arith, still_open-all ts h.1)

-- The sets of a round before the pass over the connections.
abbrev pub listening_sets : (sock_fd : ℕ) → FdSets
listening_sets sock_fd = record { readfds = sock_fd ∷ []; writefds = []; max_fd = some sock_fd }

abbrev pub server_question : ServerState → Call
server_question p =
    let w = watch_all p.nwc_hdr (listening_sets p.sock_fd) in
    selected (nfds_of w.1.max_fd) w.1.readfds w.1.writefds p.timeout_value

-- The pass that frees closed connections keeps open ones.
kept :
    (ts : List Turn) (s : System ServerState)
    → s.locals.nwc_hdr ≡ connections_of ts
    → AreOpen ts
    → (watch_all s.locals.nwc_hdr (listening_sets s.locals.sock_fd)).0 ≡ connections_of ts
kept ts s conns open_fds =
    (watch_all-has 0 s.locals.nwc_hdr (listening_sets s.locals.sock_fd)).0
    ∙ ap still_open conns
    ∙ still_open-all ts open_fds

module _ (stray : List ℕ → Bool) (echo_mode sleep_time : ℕ) (readfds writefds : List ℕ)
    (left : ℕ × ℕ) (selects : List SelectReply) (accepts : List AcceptReply)
    (recvs : List RecvReply) (sends : List SendReply) (answers : echo_mode ≢ 2)
    (receives : echo_mode ≢ 3) where
  served : List Turn → System ServerState → System ServerState
  served us s = record s {
    locals = record (s.locals) {
      nwc_hdr = map (after_turn readfds writefds) us;
      timeout_value = timeval_of sleep_time;
    };
    recvs = recvs;
    sends = sends;
    calls = s.calls ++ pongs_of readfds writefds us;
  }

  server_serve-pongs :
      (us : List Turn) (s : System ServerState)
      → s.locals.nwc_hdr ≡ connections_of us
      → AreOpen us
      → s.recvs ≡ recvs_of readfds writefds us ++ recvs
      → s.sends ≡ sends_of readfds writefds us ++ sends
      → server_serve stray echo_mode sleep_time readfds writefds s ≡ done (true, served us s)
  unfolding server_serve served
  server_serve-pongs us s conns open_fds r d = ground (
    arith,
    conns,
    echo_all-serve_all stray echo_mode readfds writefds answers receives (connections_of us) s,
    serve_all-pongs stray readfds writefds us s recvs sends open_fds r d,
  )

  -- A round of the TCP server in which a new connection is accepted, in the echo modes other than 2
  -- and 3, over open connections of which the readable ones receive some bytes and every send
  -- accepts the four bytes: the round goes on, makes the new connection non-blocking, and sends a
  -- pong on every connection that does not wait to become writable or has become writable, the new
  -- one among them, in order and behind what it asked `select`. Its list then holds the connections
  -- as they are after their turns, the new one last.
  pub server_round-pongs :
      (ts : List Turn) (fd : ℕ) (s : System ServerState)
      → s.locals.nwc_hdr ≡ connections_of ts
      → AreOpen ts
      → s.selects ≡ ready readfds writefds left ∷ selects
      → has s.locals.sock_fd readfds ≡ true
      → s.accepts ≡ accepted fd ∷ accepts
      → s.recvs ≡ recvs_of readfds writefds (ts ++ new_turn fd ∷ []) ++ recvs
      → s.sends ≡ sends_of readfds writefds (ts ++ new_turn fd ∷ []) ++ sends
      → (t : System ServerState) × (server_round stray echo_mode sleep_time s ≡ done (true, t))
        × (t.calls
            ≡ s.calls
              ++ (server_question s.locals
                  ∷ nonblocking fd
                  ∷ pongs_of readfds writefds (ts ++ new_turn fd ∷ [])))
        × (t.locals.nwc_hdr ≡ map (after_turn readfds writefds) (ts ++ new_turn fd ∷ []))
  unfolding server_round server_selected server_dispatch accept_connection server_serve next_select
      next_accept
  server_round-pongs ts fd s conns open_fds asked listens waiting r d =
      let us = ts ++ new_turn fd ∷ [] in
      let own = listening_sets s.locals.sock_fd in
      let open_conns : (watch_all s.locals.nwc_hdr own).0 ≡ connections_of ts =
        kept ts s conns open_fds in
      let s2 : System ServerState = record s {
        locals = record (s.locals) {
          nwc_hdr = (watch_all s.locals.nwc_hdr own).0 ++ new_connection none (some fd) ∷ [];
          timeout_value = left_over left s.locals.timeout_value;
        };
        selects = selects;
        accepts = accepts;
        calls = (s.calls ++ server_question s.locals ∷ []) ++ nonblocking fd ∷ [];
      } in
      let opens : AreOpen us = AreOpen-append ts (new_turn fd ∷ []) open_fds (refl, tt) in
      let runs =
        server_serve-pongs us s2
          (ground (arith, open_conns, connections_of-append ts (new_turn fd ∷ []))) opens r d in
      (
        served us s2,
        ground (arith, runs),
        unfold served in
            (append_assoc (s.calls ++ server_question s.locals ∷ []) (nonblocking fd ∷ [])
                (pongs_of readfds writefds us)
              ∙ append_assoc s.calls (server_question s.locals ∷ [])
                  (nonblocking fd ∷ pongs_of readfds writefds us)),
        unfold served in refl,
      )
