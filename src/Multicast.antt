-- ===== src/Multicast.antt =====
-- mcast.c, mcast_server.c and mcast_client.c of 04-26_基于UDP组播的编程: a server that joins a multicast
-- group and answers each datagram with the time, sent to the group, and a client that asks once. A run returns its result and the calls that change
-- sockets, in order; the answers to setsockopt are arguments.
use imooc_sock_core_tech.Prelude.{
  ℕ, Bool, true, false, Option, none, some, List, [], ◌∷◌, ◌++◌, ◌==◌, ltb, length, take,
  if◌then◌else◌,
}
use imooc_sock_core_tech.Outcome.{Outcome, done, fault, hang}
use imooc_sock_core_tech.Sock.{af_inet}
use imooc_sock_core_tech.Checker.{DatagramReply, datagram, recvfrom_failed}
pub mod Leaks

abbrev pub af_inet6 : ℕ
af_inet6 = 10

-- `struct sockaddr`, with the scope of an IPv6 address.
pub record Address : Type 0 where
  pub family : ℕ
  pub addr : List ℕ
  pub scope_id : ℕ

-- What `getaddrinfo` lists, with the answers to `socket` (`none` for -1) and `bind`.
pub record AddrInfo : Type 0 where
  pub address : Address
  pub socket_reply : Option ℕ
  pub bind_ok : Bool

-- `getaddrinfo`, where `none` is a failure; a missing host name is NULL.
abbrev pub AddrResolver : Type 0
AddrResolver = (hostname service : Option (List ℕ)) (family : ℕ) → Option (List AddrInfo)

-- `membership` has the group and the interface: an IPv4 address, or the scope of an IPv6 one.
pub data McastCall : Type 0 where
  socket_opened : (fd : ℕ) → McastCall
  socket_bound : (fd : ℕ) → McastCall
  socket_closed : (fd : ℕ) → McastCall
  membership : (fd : ℕ) (joins : Bool) (group : List ℕ) (interface : List ℕ) → McastCall
  ttl_set : (fd ttl : ℕ) → McastCall
  loop_set : (fd flag : ℕ) → McastCall
  sent_group : (fd : ℕ) (bytes : List ℕ) (group : Address) → McastCall

abbrev pub inaddr_any : List ℕ
inaddr_any = 0 ∷ 0 ∷ 0 ∷ 0 ∷ []

-- The interface of a membership, where there may be a local address.
abbrev pub interface_v4 : Option Address → List ℕ
interface_v4 none = inaddr_any
interface_v4 (some localaddr) = localaddr.addr

abbrev pub interface_v6 : Option Address → List ℕ
interface_v6 none = 0 ∷ []
interface_v6 (some localaddr) = localaddr.scope_id ∷ []

-- A `setsockopt` with this effect; `true` is `rc == 0`.
abbrev pub set_option : (ok : Bool) → McastCall → Bool × List McastCall
set_option ok call = if ok then (true, call ∷ []) else (false, [])

-- For other families `rc` stays 0.
unfoldable pub mcast_join_or_leave_group :
    (ok : Bool) (fd : ℕ) (mcast_addr : Address) (localaddr : Option Address) (isjoin : Bool)
    → Bool × List McastCall
mcast_join_or_leave_group ok fd mcast_addr localaddr isjoin =
    if mcast_addr.family == af_inet
    then set_option ok (membership fd isjoin mcast_addr.addr (interface_v4 localaddr))
    else if mcast_addr.family == af_inet6
    then set_option ok (membership fd isjoin mcast_addr.addr (interface_v6 localaddr))
    else (true, [])

unfoldable pub mcast_set_ttl : (ok : Bool) (fd family ttl : ℕ) → Bool × List McastCall
mcast_set_ttl ok fd family ttl =
    if family == af_inet
    then set_option ok (ttl_set fd ttl)
    else if family == af_inet6
    then set_option ok (ttl_set fd ttl)
    else (true, [])

unfoldable pub mcast_set_loop : (ok : Bool) (fd family flag : ℕ) → Bool × List McastCall
mcast_set_loop ok fd family flag =
    if family == af_inet
    then set_option ok (loop_set fd flag)
    else if family == af_inet6
    then set_option ok (loop_set fd flag)
    else (true, [])

-- The loop of `mcast_listen`; `none` is -1. `close(-1)` does nothing.
unfoldable pub listen_loop : (family : ℕ) → List AddrInfo → Option ℕ × List McastCall
listen_loop family [] = (none, [])
listen_loop family (info ∷ res) =
    let rest = listen_loop family res in
    elim (info.socket_reply) [
      | none ↦ rest
      | some fd ↦
          if info.address.family == family
          then if info.bind_ok
            then (some fd, socket_opened fd ∷ socket_bound fd ∷ [])
            else (rest.0, socket_opened fd ∷ socket_closed fd ∷ rest.1)
          else (rest.0, socket_opened fd ∷ socket_closed fd ∷ rest.1)
    ]

unfoldable pub mcast_listen :
    AddrResolver → (family : ℕ) (port : List ℕ) → Option ℕ × List McastCall
unfolding listen_loop
mcast_listen resolve family port = elim (resolve none (some port) family) [
  | none ↦ (none, [])
  | some res ↦ listen_loop family res
]

-- The loop of `mcast_get_addr`: the address that is written, where a socket can be made for one.
unfoldable pub get_addr_loop : List AddrInfo → Option Address × List McastCall
get_addr_loop [] = (none, [])
get_addr_loop (info ∷ res) = elim (info.socket_reply) [
  | none ↦ get_addr_loop res
  | some fd ↦ (some (info.address), socket_opened fd ∷ socket_closed fd ∷ [])
]

-- `true` in front is `rc == 0`, which `rc` is from `getaddrinfo` on.
unfoldable pub mcast_get_addr :
    AddrResolver → (hostname service : Option (List ℕ)) → Bool × Option Address × List McastCall
unfolding get_addr_loop
mcast_get_addr resolve hostname service = elim (resolve hostname service 0) [
  | none ↦ (false, none, [])
  | some res ↦ let found = get_addr_loop res in (true, found.0, found.1)
]

-- What stands in a variable that may have been written.
abbrev pub written : (unset : Address) → Option Address → Address
written unset none = unset
written unset (some address) = address

-- A step of `main`: where it fails, the socket is closed and the rest is left out.
abbrev pub or_close :
    (fd : ℕ) → Bool × List McastCall → Option ℕ × List McastCall → Option ℕ × List McastCall
or_close fd step rest =
    if step.0 then (rest.0, step.1 ++ rest.1) else (none, step.1 ++ socket_closed fd ∷ [])

-- The options of the server's socket.
unfoldable pub set_up :
    (join_ok ttl_ok loop_ok : Bool) (fd : ℕ) (grp_addr : Address)
    → Option Address
    → Option ℕ × List McastCall
unfolding mcast_join_or_leave_group mcast_set_ttl mcast_set_loop
set_up join_ok ttl_ok loop_ok fd grp_addr local_addr =
    or_close fd (mcast_join_or_leave_group join_ok fd grp_addr local_addr true) (
      or_close fd (mcast_set_ttl ttl_ok fd grp_addr.family 1)
        (or_close fd (mcast_set_loop loop_ok fd grp_addr.family 0) (some fd, [])))

module _ (resolve : AddrResolver) (join_ok ttl_ok loop_ok : Bool) (port : List ℕ) where
  -- From `mcast_listen` on.
  unfoldable pub listen_and_join : (grp_addr : Address) → Option Address → Option ℕ × List McastCall
  unfolding mcast_listen set_up
  listen_and_join grp_addr local_addr =
      let (reply, made) = mcast_listen resolve grp_addr.family port in
      elim reply [
        | none ↦ (none, made)
        | some fd ↦
            let rest = set_up join_ok ttl_ok loop_ok fd grp_addr local_addr in
            (rest.0, made ++ rest.1)
      ]

  module _ (unset_grp unset_local : Address) (grp_ip : List ℕ) where
    -- `main` up to its loop; `none` where it returns.
    unfoldable pub mcast_server : (local_ip : Option (List ℕ)) → Option ℕ × List McastCall
    unfolding mcast_get_addr listen_and_join
    mcast_server local_ip =
        let (ok, grp, made) = mcast_get_addr resolve (some grp_ip) (some port) in
        if ok
        then elim local_ip [
          | none ↦
              let rest = listen_and_join (written unset_grp grp) none in (rest.0, made ++ rest.1)
          | some ip ↦
              let (local_ok, local_addr, local_made) = mcast_get_addr resolve (some ip) none in
              let rest =
                listen_and_join (written unset_grp grp) (some (written unset_local local_addr)) in
              if local_ok
              then (rest.0, made ++ (local_made ++ rest.1))
              else (none, made ++ local_made)
        ]
        else (none, made)

-- `memset(&grp_addr, 0, sizeof(grp_addr))`
abbrev pub zero_address : Address
zero_address = record { family = 0; addr = []; scope_id = 0 }

-- `main` of the client, which starts like the server but with addresses of 0; `true` in front is a
-- return of 0.
unfoldable pub mcast_client :
    AddrResolver
    → (join_ok ttl_ok loop_ok : Bool) (port grp_ip : List ℕ) (local_ip : Option (List ℕ))
    → (send_ok recv_ok : Bool) → Bool × List McastCall
unfolding mcast_server mcast_get_addr
mcast_client resolve join_ok ttl_ok loop_ok port grp_ip local_ip send_ok recv_ok =
    let (reply, made) =
      mcast_server resolve join_ok ttl_ok loop_ok port zero_address zero_address grp_ip local_ip in
    let grp_addr = written zero_address (mcast_get_addr resolve (some grp_ip) (some port)).1 in
    elim reply [
      | none ↦ (false, made)
      | some fd ↦
          if send_ok
          then (recv_ok, made ++ sent_group fd (b'1' ∷ []) grp_addr ∷ socket_closed fd ∷ [])
          else (false, made ++ socket_closed fd ∷ [])
    ]

-- The first rounds of the server's loop, from the answers to `recvfrom` and `sendto`: a datagram
-- that fills the 256 bytes of `b` makes `b[rc] = '\0'` write behind it. `time_str` is the text of
-- `ctime`, filled up to 256 bytes.
unfoldable pub mcast_rounds :
    (sockfd : ℕ) (grp_addr : Address) (time_str : List ℕ)
    → List (DatagramReply × Bool)
    → Outcome (List McastCall)
mcast_rounds sockfd grp_addr time_str [] = done []
mcast_rounds sockfd grp_addr time_str ((recvfrom_failed errno, ok) ∷ rounds) =
    mcast_rounds sockfd grp_addr time_str rounds
mcast_rounds sockfd grp_addr time_str ((datagram bytes from, ok) ∷ rounds) =
    let rest = mcast_rounds sockfd grp_addr time_str rounds in
    if ltb (length (take 256 bytes)) 256
    then elim rest [
      | done calls ↦ done (if ok then sent_group sockfd time_str grp_addr ∷ calls else calls)
      | fault ↦ fault
      | hang ↦ hang
    ]
    else fault
