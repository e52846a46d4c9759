-- ===== src/Multicast/Leaks.antt =====
-- The sockets that are open once mcast_server.c (04-26_基于UDP组播的编程) has started or failed.
use imooc_sock_core_tech.Prelude.{
  ℕ, ◌≡◌, refl, Bool, Option, none, some, List, [], ◌∷◌, ◌++◌, arith, Option-cases, inl, inr,
}
use imooc_sock_core_tech.Sock.Leaks.{without_fd, fd_list}
use imooc_sock_core_tech.Multicast.{
  Address, AddrInfo, AddrResolver, McastCall, socket_opened, socket_closed, sent_group,
  mcast_join_or_leave_group, mcast_set_ttl, mcast_set_loop, listen_loop, mcast_listen,
  get_addr_loop, mcast_get_addr, written, set_up, listen_and_join, mcast_server, mcast_client,
  zero_address,
}

-- The sockets that are open after the calls, the newest first.
abbrev pub sockets_after : List ℕ → List McastCall → List ℕ
sockets_after fds [] = fds
sockets_after fds (socket_opened fd ∷ calls) = sockets_after (fd ∷ fds) calls
sockets_after fds (socket_closed fd ∷ calls) = sockets_after (without_fd fd fds) calls
sockets_after fds (_ ∷ calls) = sockets_after fds calls

sockets_after-append :
    (fds : List ℕ) (xs ys : List McastCall)
    → sockets_after fds (xs ++ ys) ≡ sockets_after (sockets_after fds xs) ys
sockets_after-append fds [] ys = refl
sockets_after-append fds (socket_opened fd ∷ xs) ys = sockets_after-append (fd ∷ fds) xs ys
sockets_after-append fds (socket_closed fd ∷ xs) ys = sockets_after-append (without_fd fd fds) xs ys
sockets_after-append fds (_ ∷ xs) ys = sockets_after-append fds xs ys

listen_loop-sockets :
    (family : ℕ) (res : List AddrInfo) (fds : List ℕ)
    → sockets_after fds (listen_loop family res).1 ≡ fd_list (listen_loop family res).0 fds
unfolding listen_loop
listen_loop-sockets family [] fds = refl
listen_loop-sockets family (info ∷ res) fds = ground (arith, listen_loop-sockets family res fds)

get_addr_loop-sockets :
    (res : List AddrInfo) (fds : List ℕ) → sockets_after fds (get_addr_loop res).1 ≡ fds
unfolding get_addr_loop
get_addr_loop-sockets [] fds = refl
get_addr_loop-sockets (info ∷ res) fds = ground (arith, get_addr_loop-sockets res fds)

mcast_get_addr-sockets :
    (resolve : AddrResolver) (hostname service : Option (List ℕ)) (fds : List ℕ)
    → sockets_after fds (mcast_get_addr resolve hostname service).2 ≡ fds
unfolding mcast_get_addr
mcast_get_addr-sockets resolve hostname service fds =
    elim (Option-cases (resolve hostname service 0)) [
      | inl failed ↦ ground arith
      | inr (res, got) ↦ ground (arith, get_addr_loop-sockets res fds)
    ]

mcast_listen-sockets :
    (resolve : AddrResolver) (family : ℕ) (port : List ℕ) (fds : List ℕ)
    → sockets_after fds (mcast_listen resolve family port).1
      ≡ fd_list (mcast_listen resolve family port).0 fds
unfolding mcast_listen
mcast_listen-sockets resolve family port fds =
    elim (Option-cases (resolve none (some port) family)) [
      | inl failed ↦ ground arith
      | inr (res, got) ↦ ground (arith, listen_loop-sockets family res fds)
    ]

module _ (resolve : AddrResolver) (unset_grp unset_local : Address) (join_ok ttl_ok loop_ok : Bool)
    (port grp_ip : List ℕ) where
  set_up-sockets :
      (fd : ℕ) (grp_addr : Address) (local_addr : Option Address) (fds : List ℕ)
      → sockets_after (fd ∷ fds) (set_up join_ok ttl_ok loop_ok fd grp_addr local_addr).1
        ≡ fd_list (set_up join_ok ttl_ok loop_ok fd grp_addr local_addr).0 fds
  unfolding set_up mcast_join_or_leave_group mcast_set_ttl mcast_set_loop
  set_up-sockets fd grp_addr local_addr fds = ground arith

  listen_and_join-sockets :
      (grp_addr : Address) (local_addr : Option Address) (fds : List ℕ)
      → let (reply, made) =
          listen_and_join resolve join_ok ttl_ok loop_ok port grp_addr local_addr in
        sockets_after fds made ≡ fd_list reply fds
  unfolding listen_and_join
  listen_and_join-sockets grp_addr local_addr fds =
      let (reply, made) = mcast_listen resolve grp_addr.family port in
      elim (Option-cases reply) [
        | inl failed ↦ ground (arith, mcast_listen-sockets resolve grp_addr.family port fds)
        | inr (fd, got) ↦ ground (
          arith,
          mcast_listen-sockets resolve grp_addr.family port fds,
          set_up-sockets fd grp_addr local_addr fds,
          sockets_after-append fds made (set_up join_ok ttl_ok loop_ok fd grp_addr local_addr).1,
        )
      ]

  mcast_server-sockets :
      (local_ip : Option (List ℕ)) (fds : List ℕ)
      → let (reply, made) =
          mcast_server resolve join_ok ttl_ok loop_ok port unset_grp unset_local grp_ip local_ip in
        sockets_after fds made ≡ fd_list reply fds
  unfolding mcast_server
  mcast_server-sockets none fds =
      let (ok, grp, made) = mcast_get_addr resolve (some grp_ip) (some port) in
      let rest = listen_and_join resolve join_ok ttl_ok loop_ok port (written unset_grp grp) none in
      ground (
        arith,
        mcast_get_addr-sockets resolve (some grp_ip) (some port) fds,
        sockets_after-append fds made rest.1,
        listen_and_join-sockets (written unset_grp grp) none fds,
      )
  mcast_server-sockets (some ip) fds =
      let (ok, grp, made) = mcast_get_addr resolve (some grp_ip) (some port) in
      let (local_ok, local_addr, local_made) = mcast_get_addr resolve (some ip) none in
      let local = some (written unset_local local_addr) in
      let rest =
        listen_and_join resolve join_ok ttl_ok loop_ok port (written unset_grp grp) local in
      ground (
        arith,
        mcast_get_addr-sockets resolve (some grp_ip) (some port) fds,
        mcast_get_addr-sockets resolve (some ip) none fds,
        sockets_after-append fds made local_made,
        sockets_after-append fds made (local_made ++ rest.1),
        sockets_after-append fds local_made rest.1,
        listen_and_join-sockets (written unset_grp grp) local fds,
      )

module _ (resolve : AddrResolver) (join_ok ttl_ok loop_ok : Bool) (port grp_ip : List ℕ) where
  -- Whatever `getaddrinfo` lists and whatever the calls answer, the multicast server has, once it
  -- has reached its loop or returned, the sockets open that were open before and, where it has
  -- reached its loop, the group's socket, and no others; and the multicast client, whose run is
  -- finite, leaves exactly the sockets open that were open before.
  pub mcast_programs_open :
      (unset_grp unset_local : Address) (local_ip : Option (List ℕ)) (send_ok recv_ok : Bool)
      (fds : List ℕ)
      → let (reply, made) =
          mcast_server resolve join_ok ttl_ok loop_ok port unset_grp unset_local grp_ip local_ip in
        (sockets_after fds made ≡ fd_list reply fds)
        × (sockets_after fds
              (mcast_client resolve join_ok ttl_ok loop_ok port grp_ip local_ip send_ok recv_ok).1
            ≡ fds)
  unfolding mcast_client
  mcast_programs_open unset_grp unset_local local_ip send_ok recv_ok fds =
      let (reply, made) =
        mcast_server resolve join_ok ttl_ok loop_ok port zero_address zero_address grp_ip
          local_ip in
      let grp = written zero_address (mcast_get_addr resolve (some grp_ip) (some port)).1 in
      let starts =
        λ (g l : Address). mcast_server-sockets resolve g l join_ok ttl_ok loop_ok port grp_ip in
      (
        starts unset_grp unset_local local_ip fds,
        elim (Option-cases reply) [
          | inl failed ↦ ground (arith, starts zero_address zero_address local_ip fds)
          | inr (fd, got) ↦ ground (
            arith,
            starts zero_address zero_address local_ip fds,
            sockets_after-append fds made (socket_closed fd ∷ []),
            sockets_after-append fds made (sent_group fd (b'1' ∷ []) grp ∷ socket_closed fd ∷ []),
          )
        ],
      )
