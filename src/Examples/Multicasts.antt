-- ===== src/Examples/Multicasts.antt =====
-- The multicast programs (Multicast).
use imooc_sock_core_tech.Prelude.{◌≡◌, refl, true, false, none, some, [], ◌∷◌}
use imooc_sock_core_tech.Outcome.{done}
use imooc_sock_core_tech.Sock.{af_inet}
use imooc_sock_core_tech.Sock.Leaks.{fd_list}
use imooc_sock_core_tech.World.{SockAddr}
use imooc_sock_core_tech.Checker.{datagram, recvfrom_failed}
use imooc_sock_core_tech.Multicast.{
  Address, AddrInfo, AddrResolver, sent_group, zero_address, mcast_server, mcast_client,
  mcast_rounds,
}
use imooc_sock_core_tech.Multicast.Leaks.{sockets_after, mcast_programs_open}

abbrev group : Address
group = record { family = af_inet; addr = 224 ∷ 0 ∷ 0 ∷ 9 ∷ []; scope_id = 0 }

-- A candidate that can not be bound, and one that can.
abbrev taken : AddrInfo
taken = record { address = group; socket_reply = some 5; bind_ok = false }

abbrev open_info : AddrInfo
open_info = record taken { socket_reply = some 6; bind_ok = true }

abbrev both : AddrResolver
both hostname service family = some (taken ∷ open_info ∷ [])

mcast_programs_open_example :
    let (reply, made) =
      mcast_server both true true true
        (b'1' ∷ b'3' ∷ [])
        zero_address
        zero_address
        (b'g' ∷ [])
        none in
    (sockets_after (4 ∷ []) made ≡ fd_list reply (4 ∷ []))
    × (sockets_after
          (4 ∷ [])
          (mcast_client both true true true (b'1' ∷ b'3' ∷ []) (b'g' ∷ []) none true false).1
        ≡ 4 ∷ [])
mcast_programs_open_example =
    mcast_programs_open both true true true (b'1' ∷ b'3' ∷ []) (b'g' ∷ []) zero_address zero_address
      none true false (4 ∷ [])

-- The server ends up with the second socket.
second_socket :
    (mcast_server both true true true
      (b'1' ∷ b'3' ∷ [])
      zero_address
      zero_address
      (b'g' ∷ [])
      none).0
    ≡ some 6
unfolding mcast_server
second_socket = refl

abbrev somebody : SockAddr
somebody = record { sin_port = 13; s_addr = 7 }

one_answer :
    mcast_rounds 6 group
      (b't' ∷ [])
      ((recvfrom_failed 4, true) ∷ (datagram (b'1' ∷ []) somebody, true) ∷ [])
    ≡ done (sent_group 6 (b't' ∷ []) group ∷ [])
unfolding mcast_rounds
one_answer = refl
