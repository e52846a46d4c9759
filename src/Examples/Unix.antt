-- ===== src/Examples/Unix.antt =====
-- The checker's programs over UNIX domain sockets (Checker/UnixStream).
use imooc_sock_core_tech.Prelude.{
  ◌≡◌, refl, true, false, some, ℕ, List, [], ◌∷◌, ◌++◌, ◌≤◌, ◌+◌, ◌*◌, ◌%◌, ◌^◌, arith,
}
use imooc_sock_core_tech.Types.{eagain}
use imooc_sock_core_tech.Prelude.Int.{pos}
use imooc_sock_core_tech.Outcome.{done}
use imooc_sock_core_tech.World.{received, sent, send_failed, accepted}
use imooc_sock_core_tech.Examples.Data.{system_of}
use imooc_sock_core_tech.Checker.{
  pong_message, sent_bytes, nonblocking, listens, unlinked, named, controlled, closed, System, Call,
}
use imooc_sock_core_tech.Checker.Buffers.{ClientArgs, alloc_buffer}
use imooc_sock_core_tech.Checker.ClientRounds.{count_sent}
use imooc_sock_core_tech.Checker.UnixClient.{UnixClientState, run_unix_stream_client}
use imooc_sock_core_tech.Checker.UnixClient.Ending.{unix_client_ends}
use imooc_sock_core_tech.Checker.UnixStream.{
  UnixState, happened, wait_failed, unix_events, run_unix_stream_server,
}
use imooc_sock_core_tech.Checker.UnixStream.Requests.{Request, events_of, unix_events-pongs}
use imooc_sock_core_tech.Checker.UnixStream.Starved.{late_connection_starves}

abbrev unix_state : UnixState
unix_state = record {
  listen_fd = 3;
  ev = record { events = 1; data_u64 = (3, 0) };
  recv_buffer = [];
  waits = [];
}

-- Two connections that sent a byte; the second is taken to wait for writing.
abbrev first_request : Request
first_request = record { sfd = 5; half = 0; byte = 7; bytes = [] }

abbrev second_request : Request
second_request = record { sfd = 6; half = 2; byte = 8; bytes = [] }

abbrev two_requests : System UnixState
two_requests = record (system_of unix_state) {
  recvs = received (7 ∷ []) ∷ received (8 ∷ []) ∷ [];
  sends = sent 4 ∷ [];
}

unix_events-pongs_example :
    unix_events (events_of (first_request ∷ second_request ∷ [])) two_requests
    ≡ done (
      tt,
      record (system_of (record unix_state { recv_buffer = 8 ∷ [] })) {
        calls = sent_bytes 5 pong_message ∷ [];
      },
    )
unix_events-pongs_example =
    unix_events-pongs (first_request ∷ second_request ∷ []) two_requests [] []
      ((λ e. omega arith), ((λ e. omega arith), tt)) refl refl

-- The send to 5 would block, and 6 is accepted behind it.
abbrev blocked : System UnixState
blocked = record (system_of unix_state) {
  recvs = received (7 ∷ []) ∷ received (8 ∷ []) ∷ [];
  sends = send_failed eagain ∷ [];
  accepts = accepted 6 ∷ [];
  oks = true ∷ true ∷ [];
}

late_connection_starves_example :
    (t : System UnixState) × (u : System UnixState) × (unix_events
        (record { events = 1; data_u64 = (5, 0) } ∷ record { events = 1; data_u64 = (3, 0) } ∷ [])
        blocked
      ≡ done (tt, t))
    × (t.calls ≡ controlled 5 false 5 (5, 2) ∷ nonblocking 6 ∷ controlled 6 true 1 (6, 2) ∷ [])
    × (unix_events (record { events = 1; data_u64 = (6, 2) } ∷ []) t ≡ done (tt, u))
    × (u.calls ≡ t.calls)
late_connection_starves_example =
    late_connection_starves first_request 0 6 ((8, []) ∷ []) [] [] [] [] blocked refl
      (λ e. omega arith) (λ e. omega arith) refl refl refl refl

-- A whole run: it accepts 5, answers it once, and ends when `epoll_wait` fails.
abbrev starting : System UnixState
starting = record (system_of unix_state) {
  sockets = some 3 ∷ some 4 ∷ [];
  oks = true ∷ true ∷ true ∷ true ∷ [];
  accepts = accepted 5 ∷ [];
  recvs = received (7 ∷ []) ∷ [];
  sends = sent 4 ∷ [];
}

whole_run :
    (t : System UnixState) × (run_unix_stream_server 9
        (some (b'/' ∷ b's' ∷ []))
        0
        (happened (record { events = 1; data_u64 = (3, 0) } ∷ [])
          ∷ happened (record { events = 1; data_u64 = (5, 0) } ∷ [])
          ∷ wait_failed 4
          ∷ [])
        starting
      ≡ done (pos 0, t))
    × (t.calls
        ≡ nonblocking 3
          ∷ unlinked (b'/' ∷ b's' ∷ [])
          ∷ named 3 (b'/' ∷ b's' ∷ [])
          ∷ listens 3
          ∷ controlled 3 true 1 (3, 0)
          ∷ nonblocking 5
          ∷ controlled 5 true 1 (5, 0)
          ∷ sent_bytes 5 pong_message
          ∷ closed 3
          ∷ [])
unfolding run_unix_stream_server
whole_run = (_, refl, refl)

-- Two slots of one ping each, of which the second is not answered.
abbrev two_slots : ClientArgs
two_slots = record {
  message_size = pos 0;
  interval = pos 10;
  sent_pkgs = pos 0;
  count = pos 2;
  no_close = false;
}

abbrev five_bytes : List ℕ
five_bytes = b'p' ∷ b'i' ∷ b'n' ∷ b'g' ∷ 0 ∷ []

abbrev unix_client : System UnixClientState
unix_client =
    record (system_of (record {
      sock_fd = 0;
      send_msg = [];
      loop_count = 0;
      cur_slot_sent = 0;
      total_send_size = 0;
      naps = 0;
    })) {
      sockets = some 5 ∷ [];
      oks = true ∷ [];
      sends = sent 5 ∷ sent 5 ∷ [];
      recvs = received (7 ∷ []) ∷ received [] ∷ [];
    }

made_of_five : alloc_buffer [] 5 ≡ some five_bytes
unfolding alloc_buffer
made_of_five = refl

unix_client_ends_example :
    (t : System UnixClientState) × (before : List Call) × (k : ℕ) × (run_unix_stream_client [] 2
        two_slots
        (some (b's' ∷ []))
        unix_client
      ≡ done (pos 0, t))
    × (k ≤ 2)
    × (t.calls ≡ before ++ closed 5 ∷ [])
    × (count_sent before ≡ 0 + k)
    × (t.locals.total_send_size ≡ k * 5 % 2 ^ 64)
unix_client_ends_example =
    unix_client_ends [] 2 two_slots 5 five_bytes (b's' ∷ []) [] [] unix_client 1 refl (omega arith)
      (omega arith) (omega arith) (omega arith) made_of_five refl refl
