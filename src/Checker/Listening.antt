-- ===== src/Checker/Listening.antt =====
-- The listening TCP socket that the servers of 04-24_UNIX异步IO机制 (nwchecker_server_multiprocess.c
-- and nwchecker_server.c) make in the same words.
use imooc_sock_core_tech.Prelude.{ℕ, Bool, true, false, Option, none, some}
use imooc_sock_core_tech.Checker.{
  Cmd, pure, ◌>>=◌, ◌>>◌, note_call, closed, nonblocking, reuse_address, bound_to, listens, next_ok,
  next_socket,
}

module _ {L : Type 0} where
  -- `close(sock_fd); return -1;` where a call failed.
  abbrev close_unless : Bool → (fd : ℕ) → Cmd L (Option ℕ) → Cmd L (Option ℕ)
  close_unless true fd rest = rest
  close_unless false fd rest = do note_call (closed fd); pure none

  -- The listening socket; `none` where the function returns -1.
  unfoldable pub listen_socket : (port : ℕ) → Cmd L (Option ℕ)
  unfolding next_socket next_ok
  listen_socket port = next_socket >>= λ reply. elim reply [
    | none ↦ pure none
    | some fd ↦ do
      note_call (nonblocking fd)
      reuse_ok ← next_ok
      close_unless reuse_ok fd (do
        note_call (reuse_address fd)
        bind_ok ← next_ok
        close_unless bind_ok fd (do
          note_call (bound_to fd port)
          listen_ok ← next_ok
          close_unless listen_ok fd (do note_call (listens fd); pure (some fd))))
  ]
