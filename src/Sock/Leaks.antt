-- ===== src/Sock/Leaks.antt =====
-- The descriptors that are open after the calls of nwc_sock.c.
use imooc_sock_core_tech.Prelude.{
  ℕ, ◌≡◌, refl, Bool, true, false, Option, none, some, List, [], ◌∷◌, ◌++◌, arith, ◌==◌,
  if◌then◌else◌, Option-cases, inl, inr, ◌%◌, ◌^◌,
}
use imooc_sock_core_tech.Prelude.Int.{ℤ, pos, negsuc}
use imooc_sock_core_tech.Sock.{
  Candidate, Effect, opened, listening, closed, Resolver, sock_create, bind_candidate, bind_loop,
  listen_on, sock_listen, connect_loop, sock_connect,
}

abbrev pub without_fd : ℕ → List ℕ → List ℕ
without_fd fd [] = []
without_fd fd (x ∷ xs) = if x == fd then xs else x ∷ without_fd fd xs

-- The descriptors that are open after the calls, from those open before, the newest first.
abbrev pub open_after : List ℕ → List Effect → List ℕ
open_after fds [] = fds
open_after fds (opened fd ∷ es) = open_after (fd ∷ fds) es
open_after fds (closed fd ∷ es) = open_after (without_fd fd fds) es
open_after fds (_ ∷ es) = open_after fds es

abbrev pub fd_list : Option ℕ → List ℕ → List ℕ
fd_list none fds = fds
fd_list (some fd) fds = fd ∷ fds

open_after-append :
    (fds : List ℕ) (es ds : List Effect)
    → open_after fds (es ++ ds) ≡ open_after (open_after fds es) ds
open_after-append fds [] ds = refl
open_after-append fds (opened fd ∷ es) ds = open_after-append (fd ∷ fds) es ds
open_after-append fds (closed fd ∷ es) ds = open_after-append (without_fd fd fds) es ds
open_after-append fds (_ ∷ es) ds = open_after-append fds es ds

sock_create-open :
    (c : Candidate) (nonblock reuse : Bool) (fds : List ℕ)
    → open_after fds (sock_create c nonblock reuse).1 ≡ fd_list (sock_create c nonblock reuse).0 fds
unfolding sock_create
sock_create-open c nonblock reuse fds = ground arith

bind_candidate-open :
    (c : Candidate) (fds : List ℕ)
    → open_after fds (bind_candidate c).1 ≡ fd_list (bind_candidate c).0 fds
unfolding bind_candidate
bind_candidate-open c fds = ground arith

bind_loop-open :
    (family socktype : ℕ) (res : List Candidate) (fds : List ℕ)
    → open_after fds (bind_loop family socktype res).1
      ≡ fd_list (bind_loop family socktype res).0 fds
unfolding bind_loop
bind_loop-open family socktype [] fds = refl
bind_loop-open family socktype (c ∷ res) fds = ground (
  arith,
  bind_candidate-open c fds,
  bind_loop-open family socktype res fds,
  open_after-append fds (bind_candidate c).1 (bind_loop family socktype res).1,
)

listen_on-open :
    (listen_ok : Bool) (socktype : ℕ) (reply : Option ℕ) (made : List Effect) (fds : List ℕ)
    → open_after fds made ≡ fd_list reply fds
    → open_after fds (listen_on listen_ok socktype reply made).1
      ≡ fd_list (listen_on listen_ok socktype reply made).0 fds
unfolding listen_on
listen_on-open listen_ok socktype none made fds h = h
listen_on-open listen_ok socktype (some fd) made fds h = ground (
  arith,
  open_after-append fds made (listening fd ∷ []),
  open_after-append fds made (closed fd ∷ []),
)

-- `nwc_sock_listen` leaves open what was open before and the descriptor that it returns, and
-- nothing more: every other socket that it made is closed again, on every path.
pub sock_listen-open :
    (resolve : Resolver) (listen_ok : Bool) (family socktype port : ℕ) (fds : List ℕ)
    → open_after fds (sock_listen resolve listen_ok family socktype port).1
      ≡ fd_list (sock_listen resolve listen_ok family socktype port).0 fds
unfolding sock_listen
sock_listen-open resolve listen_ok family socktype port fds = elim (Option-cases (resolve port)) [
  | inl failed ↦ ground arith
  | inr (res, got) ↦
      let (reply, made) = bind_loop family socktype res in
      rw (got, sock_listen)
        (listen_on-open listen_ok socktype reply made fds (bind_loop-open family socktype res fds))
]

connect_loop-open :
    (rc : ℤ) (res : List Candidate) (fds : List ℕ)
    → open_after fds (connect_loop rc res).2 ≡ fd_list (connect_loop rc res).1 fds
unfolding connect_loop
connect_loop-open rc [] fds = refl
connect_loop-open rc (c ∷ res) fds = ground (
  arith,
  connect_loop-open rc res fds,
  connect_loop-open (negsuc 0) res fds,
  sock_create-open c true false fds,
  open_after-append fds (sock_create c true false).1 (connect_loop rc res).2,
)

-- `nwc_sock_connect` leaves open what was open before and the descriptor that it writes through
-- `fd`, and nothing more, on every path.
pub sock_connect-open :
    (resolve : Resolver) (port : ℕ) (fds : List ℕ)
    → open_after fds (sock_connect resolve port).2 ≡ fd_list (sock_connect resolve port).1 fds
unfolding sock_connect
sock_connect-open resolve port fds = elim (Option-cases (resolve (port % 2 ^ 8))) [
  | inl failed ↦ ground arith
  | inr (res, got) ↦ ground (arith, got, connect_loop-open (pos 0) res fds)
]
