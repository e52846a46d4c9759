-- ===== src/Checker/UnixStream.antt =====
-- unix_stream_server.c of 04-24_UNIX异步IO机制: "pong" over stream sockets of the UNIX domain, in a loop
-- around epoll. The upper half of an event's `data.u64` tells whether its connection waits to write.
use imooc_sock_core_tech.Prelude.{
  ℕ, zero, suc, ◌/◌, ◌%◌, Bool, true, false, ◌||◌, Option, none, some, List, [], ◌∷◌, ◌==◌, take,
  if◌then◌else◌,
}
use imooc_sock_core_tech.Prelude.Int.{ℤ, pos, negsuc}
use imooc_sock_core_tech.Outcome.{done, fault, hang}
use imooc_sock_core_tech.Types.{eintr, eagain}
use imooc_sock_core_tech.World.{
  RecvReply, received, recv_failed, SendReply, sent, send_failed, AcceptReply, accepted,
  accept_failed,
}
use imooc_sock_core_tech.Checker.{
  reads, overwrite, pong_message, closed, nonblocking, listens, unlinked, named, controlled, Cmd,
  pure, ◌>>=◌, ◌>>◌, get, put, note_call, next_ok, next_socket, next_recv, next_accept, send_on,
}
pub mod Requests
pub mod Starved

-- `struct epoll_event`, with the lower and the upper half of `data.u64`.
pub record EpollEvent : Type 0 where
  pub events : ℕ
  pub data_u64 : ℕ × ℕ

-- What `epoll_wait` gives.
pub data WaitReply : Type 0 where
  happened : (es : List EpollEvent) → WaitReply
  wait_failed : (errno : ℕ) → WaitReply

-- The variables that last, and the answers of `epoll_wait` to come.
pub record UnixState : Type 0 where
  pub listen_fd : ℕ
  pub ev : EpollEvent
  pub recv_buffer : List ℕ
  pub waits : List WaitReply

abbrev pub epoll_in : ℕ
epoll_in = 1

abbrev pub epoll_in_out : ℕ
epoll_in_out = 5

-- `events & EPOLLOUT`
abbrev pub wants_out : (events : ℕ) → Bool
wants_out events = events / 4 % 2 == 1

-- `epoll_ctl(epfd, op, sfd, &ev)`; `true` is a success.
unfoldable pub control : (adds : Bool) (sfd : ℕ) → Cmd UnixState Bool
unfolding next_ok
control adds sfd = get >>= λ p. next_ok >>= λ ok.
    if ok
    then (note_call (controlled sfd adds p.ev.events p.ev.data_u64) >> pure true)
    else pure false

abbrev pub with_ev : (events : ℕ) (data_u64 : ℕ × ℕ) → UnixState → UnixState
with_ev events data_u64 p = record p { ev = record { events = events; data_u64 = data_u64 } }

-- `close(sfd); break;`
unfoldable pub close_and_break : (sfd : ℕ) → Cmd UnixState Bool
close_and_break sfd = note_call (closed sfd) >> pure false

-- What follows `accept`; `ev.data.fd = newfd` writes the lower half only. `false` is `break`.
unfoldable pub unix_accepted : AcceptReply → Cmd UnixState Bool
unfolding control close_and_break
unix_accepted (accept_failed errno) = pure (errno == eintr)
unix_accepted (accepted newfd) = do
  note_call (nonblocking newfd)
  p ← get
  put (with_ev epoll_in (newfd, p.ev.data_u64.1) p)
  ok ← control true newfd
  if ok then pure true else close_and_break newfd

-- What follows `recv`: `errno == EINTR || EAGAIN` is true for every error.
unfoldable pub unix_received : (sfd : ℕ) → RecvReply → Cmd UnixState Bool
unfolding close_and_break
unix_received sfd (received []) = close_and_break sfd
unix_received sfd (received (b ∷ bs)) =
    get >>= λ p. put (record p { recv_buffer = overwrite (b ∷ bs) p.recv_buffer }) >> pure true
unix_received sfd (recv_failed errno) = pure true

-- `if (events[i].events & EPOLLIN)`
unfoldable pub unix_read : EpollEvent → Cmd UnixState Bool
unfolding unix_received next_recv
unix_read e = if reads e.events then (next_recv >>= unix_received e.data_u64.0) else pure true

-- What follows `send`
unfoldable pub unix_sent : (sfd : ℕ) → SendReply → Cmd UnixState Bool
unfolding close_and_break control
unix_sent sfd (sent n) = pure true
unix_sent sfd (send_failed errno) =
    if errno == eintr
    then pure true
    else if errno == eagain
    then (do
      p ← get
      put (with_ev epoll_in_out (sfd, 2) p)
      ok ← control false sfd
      if ok then pure true else close_and_break sfd)
    else close_and_break sfd

-- The end of the wait for writing, whose `epoll_ctl` is not looked at.
unfoldable pub stop_waiting : EpollEvent → Cmd UnixState Bool
unfolding control
stop_waiting e =
    if wants_out e.events
    then (do p ← get; put (with_ev epoll_in (e.data_u64.0, 0) p); control false e.data_u64.0)
    else pure true

-- `if (!event || events[i].events & EPOLLOUT)`
unfoldable pub unix_write : EpollEvent → Cmd UnixState Bool
unfolding stop_waiting unix_sent send_on
unix_write e =
    if (e.data_u64.1 == 0) || wants_out e.events
    then (stop_waiting e >>= λ ignored.
        send_on (some e.data_u64.0) pong_message >>= unix_sent e.data_u64.0)
    else pure true

-- One turn of the `for`: `false` is `break`.
unfoldable pub unix_event : EpollEvent → Cmd UnixState Bool
unfolding unix_accepted unix_read unix_write next_accept
unix_event e = get >>= λ p.
    if e.data_u64.0 == p.listen_fd
    then (next_accept >>= unix_accepted)
    else (unix_read e >>= λ go. if go then unix_write e else pure false)

unfoldable pub unix_events : List EpollEvent → Cmd UnixState (Unit {0})
unfolding unix_event
unix_events [] = pure tt
unix_events (e ∷ es) =
    let rest = unix_events es in unix_event e >>= λ go. if go then rest else pure tt

unfoldable pub next_wait : Cmd UnixState WaitReply
next_wait s =
    let p = s.locals in
    elim (p.waits) [
      | [] ↦ hang
      | w ∷ rest ↦ done (w, record s { locals = record p { waits = rest } })
    ]

-- One round of `while(1)`: `nfds == EINTR` never holds for the -1 of a failure.
unfoldable pub unix_round : Cmd UnixState Bool
unfolding next_wait unix_events
unix_round = next_wait >>= λ reply. elim reply [
  | wait_failed errno ↦ pure false
  | happened es ↦ unix_events es >> pure true
]

unfoldable pub unix_loop : (fuel : ℕ) → Cmd UnixState (Unit {0})
unfolding unix_round
unix_loop zero s = hang
unix_loop (suc k) s =
    let rest = unix_loop k in (unix_round >>= λ go. if go then rest else pure tt) s

-- The closes where a call failed, and the return of -1.
unfoldable pub give_up : (fds : List ℕ) → Cmd UnixState (Option ℕ)
give_up [] = pure none
give_up (fd ∷ fds) = note_call (closed fd) >> give_up fds

-- The epoll descriptor with the listening socket in it.
unfoldable pub unix_epoll : (fd unset : ℕ) (waits : List WaitReply) → Cmd UnixState (Option ℕ)
unfolding give_up control next_socket
unix_epoll fd unset waits = next_socket >>= λ created. elim created [
  | none ↦ give_up (fd ∷ [])
  | some epfd ↦ do
    put (record {
      listen_fd = fd;
      ev = record { events = epoll_in; data_u64 = (fd, unset) };
      recv_buffer = [];
      waits = waits;
    })
    ok ← control true fd
    if ok then pure (some fd) else give_up (fd ∷ epfd ∷ [])
]

-- From `listen` on.
unfoldable pub unix_listen : (fd unset : ℕ) (waits : List WaitReply) → Cmd UnixState (Option ℕ)
unfolding unix_epoll give_up next_ok
unix_listen fd unset waits = next_ok >>= λ ok.
    if ok then (note_call (listens fd) >> unix_epoll fd unset waits) else give_up (fd ∷ [])

-- From `unlink` on; `sun_path` has room for 107 bytes and the terminating 0.
unfoldable pub unix_bind :
    (fd : ℕ) (path : List ℕ) (unset : ℕ) (waits : List WaitReply) → Cmd UnixState (Option ℕ)
unfolding unix_listen give_up next_ok
unix_bind fd path unset waits =
    note_call (unlinked (take 107 path))
    >> (next_ok >>= λ ok.
        if ok
        then (note_call (named fd (take 107 path)) >> unix_listen fd unset waits)
        else give_up (fd ∷ []))

-- The part up to the loop; `ip` is `na->ip`, `unset` the upper half of `ev.data` on the stack.
unfoldable pub unix_start :
    (ip : Option (List ℕ)) (unset : ℕ) (waits : List WaitReply) → Cmd UnixState (Option ℕ)
unfolding unix_bind next_socket
unix_start ip unset waits = next_socket >>= λ made. elim made [
  | none ↦ pure none
  | some fd ↦
      note_call (nonblocking fd)
      >> elim ip [ none ↦ λ s. fault | some path ↦ unix_bind fd path unset waits ]
]

-- `unix_stream_server`
unfoldable pub run_unix_stream_server :
    (fuel : ℕ) (ip : Option (List ℕ)) (unset : ℕ) (waits : List WaitReply) → Cmd UnixState ℤ
unfolding unix_start unix_loop
run_unix_stream_server fuel ip unset waits = unix_start ip unset waits >>= λ started. elim started [
  | none ↦ pure (negsuc 0)
  | some fd ↦ do unix_loop fuel; note_call (closed fd); pure (pos 0)
]
