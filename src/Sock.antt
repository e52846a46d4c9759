-- ===== src/Sock.antt =====
-- 04-30_nwchecker_refactor/nwc_sock.c. What `getaddrinfo` returns is a list of candidates, each
-- with the answers that the system gives to the calls made for it. A run returns its result and
-- the calls that change descriptors, in order.
use imooc_sock_core_tech.Prelude.{
  ℕ, ◌%◌, ◌^◌, Bool, true, false, ◌&&◌, ◌||◌, Option, none, some, List, [], ◌∷◌, ◌++◌, ◌==◌,
  if◌then◌else◌,
}
use imooc_sock_core_tech.Prelude.Int.{ℤ, pos, negsuc}
use imooc_sock_core_tech.Types.{eagain, einprogress}
pub mod Leaks
pub mod Connecting

abbrev pub sock_stream : ℕ
sock_stream = 1

abbrev pub sock_dgram : ℕ
sock_dgram = 2

abbrev pub af_inet : ℕ
af_inet = 2

-- The answer to `connect`: 0, or -1 with an error number.
pub data ConnectReply : Type 0 where
  connected : ConnectReply
  connect_failed : (errno : ℕ) → ConnectReply

-- `socket_reply` is `none` for -1; `reuse_ok` and `bind_ok` tell whether the calls succeed.
pub record Candidate : Type 0 where
  pub family : ℕ
  pub socktype : ℕ
  pub socket_reply : Option ℕ
  pub reuse_ok : Bool
  pub bind_ok : Bool
  pub connect_reply : ConnectReply

pub data Effect : Type 0 where
  opened : ℕ → Effect
  set_nonblock : ℕ → Effect
  set_reuseaddr : ℕ → Effect
  bound : ℕ → Effect
  listening : ℕ → Effect
  closed : ℕ → Effect

-- `getaddrinfo` for a port; `none` is its failure.
abbrev pub Resolver : Type 0
Resolver = (port : ℕ) → Option (List Candidate)

-- The descriptor, `none` for -1.
unfoldable pub sock_create : Candidate → (nonblock reuseaddr : Bool) → Option ℕ × List Effect
sock_create c nonblock reuseaddr = elim c.socket_reply [
  | none ↦ (none, [])
  | some fd ↦
      let made = opened fd ∷ (if nonblock then set_nonblock fd ∷ [] else []) in
      if reuseaddr
      then if c.reuse_ok
        then (some fd, made ++ set_reuseaddr fd ∷ [])
        else (none, made ++ closed fd ∷ [])
      else (some fd, made)
]

-- What the search goes on with after one candidate: its result, or the next candidate.
unfoldable pub bind_candidate : Candidate → Option ℕ × List Effect
unfolding sock_create
bind_candidate c =
    let (reply, made) = sock_create c true true in
    elim reply [
      | none ↦ (none, made)
      | some fd ↦
          if c.bind_ok then (some fd, made ++ bound fd ∷ []) else (none, made ++ closed fd ∷ [])
    ]

unfoldable pub bind_loop : (family socktype : ℕ) → List Candidate → Option ℕ × List Effect
unfolding bind_candidate
bind_loop family socktype [] = (none, [])
bind_loop family socktype (c ∷ res) =
    let rest = bind_loop family socktype res in
    if (c.socktype == socktype) && (c.family == family)
    then (let (reply, made) = bind_candidate c in
        elim reply [ some fd ↦ (some fd, made) | none ↦ (rest.0, made ++ rest.1) ])
    else rest

-- The end of `nwc_sock_listen`, behind the search.
unfoldable pub listen_on :
    (listen_ok : Bool) (socktype : ℕ) → Option ℕ → List Effect → Option ℕ × List Effect
listen_on listen_ok socktype none made = (none, made)
listen_on listen_ok socktype (some fd) made =
    if socktype == sock_stream
    then if listen_ok then (some fd, made ++ listening fd ∷ []) else (none, made ++ closed fd ∷ [])
    else (some fd, made)

-- `none` is -1, which is what `rc` is on every failing path.
unfoldable pub sock_listen :
    Resolver → (listen_ok : Bool) → (family socktype port : ℕ) → Option ℕ × List Effect
unfolding bind_loop listen_on
sock_listen resolve listen_ok family socktype port = elim (resolve port) [
  | none ↦ (none, [])
  | some res ↦
      let (reply, made) = bind_loop family socktype res in listen_on listen_ok socktype reply made
]

-- `rc`, the descriptor written through `fd` (`none`: not written), and the calls.
abbrev pub ConnectResult : Type 0
ConnectResult = ℤ × Option ℕ × List Effect

-- `errno == EINPROGRESS || errno == EWOULDBLOCK`
abbrev pub in_progress : (errno : ℕ) → Bool
in_progress errno = (errno == einprogress) || (errno == eagain)

unfoldable pub connect_loop : (rc : ℤ) → List Candidate → ConnectResult
unfolding sock_create
connect_loop rc [] = (rc, none, [])
connect_loop rc (c ∷ res) =
    let unmade = connect_loop rc res in
    let failed = connect_loop (negsuc 0) res in
    let (reply, made) = sock_create c true false in
    elim reply [
      | none ↦ (unmade.0, unmade.1, made ++ unmade.2)
      | some fd ↦ elim (c.connect_reply) [
        | connected ↦ (pos 0, some fd, made)
        | connect_failed errno ↦
            if in_progress errno
            then (pos errno, some fd, made)
            else (failed.0, failed.1, made ++ closed fd ∷ failed.2)
      ]
    ]

-- `peerport` is a `uint8_t`.
unfoldable pub sock_connect : Resolver → (peerport : ℕ) → ConnectResult
unfolding connect_loop
sock_connect resolve peerport = elim (resolve (peerport % 2 ^ 8)) [
  | none ↦ (negsuc 0, none, [])
  | some res ↦ connect_loop (pos 0) res
]
