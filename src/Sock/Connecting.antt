-- ===== src/Sock/Connecting.antt =====
-- What `nwc_sock_connect` of nwc_sock.c connects to, and what it says when it has no socket.
use imooc_sock_core_tech.Prelude.{ℕ, ◌%◌, ◌^◌, ◌≡◌, refl, none, some, List, [], ◌∷◌, arith}
use imooc_sock_core_tech.Prelude.Int.{ℤ, pos}
use imooc_sock_core_tech.Sock.{Candidate, Resolver, connect_loop, sock_connect}

-- No socket can be made for any candidate.
abbrev pub NoSocket : List Candidate → Type 0
NoSocket [] = Unit
NoSocket (c ∷ res) = (c.socket_reply ≡ none) × NoSocket res

connect_loop-NoSocket :
    (rc : ℤ) (res : List Candidate) → NoSocket res → connect_loop rc res ≡ (rc, none, [])
unfolding connect_loop
connect_loop-NoSocket rc [] h = refl
connect_loop-NoSocket rc (c ∷ res) h = ground (arith, connect_loop-NoSocket rc res)

-- Where the name resolves for the port's lower 8 bits and no candidate gets a socket, the call
-- reports success, 0, and has written no descriptor.
pub sock_connect-NoSocket :
    (resolve : Resolver) (port : ℕ) (res : List Candidate)
    → resolve (port % 2 ^ 8) ≡ some res
    → NoSocket res
    → sock_connect resolve port ≡ (pos 0, none, [])
unfolding sock_connect
sock_connect-NoSocket resolve port res got h = ground (arith, connect_loop-NoSocket (pos 0) res)
