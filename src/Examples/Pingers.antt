-- ===== src/Examples/Pingers.antt =====
-- The clients of the checker (Checker), and its lists of connections.
use imooc_sock_core_tech.Prelude.{
  ℕ, ◌+◌, ◌≡◌, refl, Bool, true, false, some, List, [], ◌∷◌, arith, ◌==◌, if◌then◌else◌,
}
use imooc_sock_core_tech.Prelude.Int.{pos}
use imooc_sock_core_tech.Outcome.{done}
use imooc_sock_core_tech.Sock.{connected}
use imooc_sock_core_tech.World.{SockAddr, received, sent}
use imooc_sock_core_tech.ListHead.{Links}
use imooc_sock_core_tech.ListHead.Ring.{Ring}
use imooc_sock_core_tech.Examples.Data.{system_of}
use imooc_sock_core_tech.Checker.{ready, System, datagram, sent_to}
use imooc_sock_core_tech.Checker.Buffers.{ClientArgs, alloc_buffer}
use imooc_sock_core_tech.Checker.Client.{ClientState, run_nwc_client}
use imooc_sock_core_tech.Checker.ClientRounds.{Answer, count_sent}
use imooc_sock_core_tech.Checker.Counting.{run_nwc_client-sends}
use imooc_sock_core_tech.Checker.UdpClient.{UdpClientState, udp_client_round, udp_count_down}
use imooc_sock_core_tech.Checker.UdpClient.Redirected.{udp_client_follows}
use imooc_sock_core_tech.Checker.NwcLinks.{
  add_nwc_tail_links, get_nwc_connection, destroy_all_nwc_links, first_with, linked_connections,
}

-- Two slots of one message each.
abbrev twice : ClientArgs
twice = record {
  message_size = pos 0;
  interval = pos 10;
  sent_pkgs = pos 0;
  count = pos 2;
  no_close = false;
}

abbrev ping_bytes : List ℕ
ping_bytes = b'p' ∷ b'i' ∷ b'n' ∷ b'g' ∷ 0 ∷ []

abbrev quiet : Answer
quiet = record { readfds = []; writefds = []; left = (0, 0); byte = 0; bytes = [] }

abbrev answered : Answer
answered = record {
  readfds = 5 ∷ [];
  writefds = [];
  left = (0, 0);
  byte = b'p';
  bytes = b'o' ∷ b'n' ∷ b'g' ∷ [];
}

abbrev unset_client : ClientState
unset_client = record {
  sock_fd = 0;
  send_msg = [];
  events = 0;
  is_connected = false;
  timeout = (0, 0);
  timeout_ptr = false;
  loop_count = 0;
  cur_slot_sent = 0;
  total_send_size = 0;
  sock_errors = [];
}

abbrev client_system : System ClientState
client_system = record (system_of unset_client) {
  sockets = some 5 ∷ [];
  selects = ready [] [] (0, 0) ∷ ready (5 ∷ []) [] (0, 0) ∷ [];
  sends = sent 5 ∷ sent 5 ∷ [];
  recvs = received (b'p' ∷ b'o' ∷ b'n' ∷ b'g' ∷ []) ∷ [];
}

buffer_of_five : alloc_buffer [] 5 ≡ some ping_bytes
unfolding alloc_buffer
buffer_of_five = refl

run_nwc_client-sends_example :
    (t : System ClientState) × (run_nwc_client [] (7, 7) 5 twice [] connected client_system
      ≡ done (pos 0, t))
    × (count_sent t.calls ≡ 0 + 2)
    × (t.locals.total_send_size ≡ 10)
run_nwc_client-sends_example =
    run_nwc_client-sends [] (7, 7) 5 twice [] 5 ping_bytes [] quiet (answered ∷ []) client_system 1
      refl refl (omega arith) (omega arith) buffer_of_five refl refl refl refl

abbrev server_addr : SockAddr
server_addr = record { sin_port = 4000; s_addr = 1 }

abbrev stranger : SockAddr
stranger = record { sin_port = 6666; s_addr = 66 }

abbrev udp_client_state : System UdpClientState
udp_client_state =
    record (system_of (record {
      sock_fd = 5;
      destaddr = some server_addr;
      send_msg = ping_bytes;
      loop_count = 0;
      cur_slot_sent = 1;
      naps = 0;
      datagrams = datagram (1 ∷ []) stranger ∷ datagram (2 ∷ []) server_addr ∷ [];
    })) { sends = sent 5 ∷ sent 5 ∷ [] }

-- The second message goes to whoever answered the first.
udp_client_follows_example :
    (t : System UdpClientState) × (u : System UdpClientState) × (go : Bool) × (udp_client_round true
        1 0 udp_client_state
      ≡ done (true, t))
    × (udp_client_round true 1 0 t ≡ done (go, u))
    × (u.calls ≡ sent_to 5 ping_bytes server_addr ∷ sent_to 5 ping_bytes stranger ∷ [])
udp_client_follows_example =
    udp_client_follows true 1 0 (λ e. omega arith) 5 5 1 2 [] [] server_addr stranger server_addr []
      [] udp_client_state refl refl refl (unfold udp_count_down in refl)

-- The header 1 with the connection 2 in its ring.
abbrev links_of_two : Links
links_of_two = record { next = λ a. if a == 1 then 2 else 1; prev = λ a. if a == 1 then 2 else 1 }

abbrev addresses : ℕ → SockAddr
addresses a = server_addr

one_connection : Ring links_of_two 1 (2 ∷ [])
one_connection = record { seg = (refl, refl, (refl, refl)); distinct = (refl, (refl, tt)) }

linked_connections_example :
    Ring (add_nwc_tail_links 1 3 links_of_two) 1 (2 ∷ 3 ∷ [])
    × (get_nwc_connection addresses 5 2 1 stranger links_of_two
        ≡ some (first_with addresses stranger (2 ∷ [])))
    × (destroy_all_nwc_links 5 2 1 links_of_two ≡ some (2 ∷ []))
linked_connections_example =
    linked_connections 5 addresses 1 (2 ∷ []) links_of_two one_connection 3 stranger refl
      (omega arith)
