-- ===== src/World.antt =====
-- The objects that the program allocates, the answers of the system that are still to come, and
-- commands over them. An object is found at its address and is gone when it is freed, so a use
-- after free is a fault.
use imooc_sock_core_tech.Prelude.{
  ℕ, ◌+◌, Bool, Option, none, some, List, [], ◌∷◌, ◌==◌, if◌then◌else◌,
}
use imooc_sock_core_tech.Prelude.Int.{ℤ}
use imooc_sock_core_tech.Types.{NwcHandle}
use imooc_sock_core_tech.Outcome.{Outcome, done, fault, hang}
use imooc_sock_core_tech.Qos.{Qos, milisecs}
use imooc_sock_core_tech.Config.{Configuration}
use imooc_sock_core_tech.Loop.{Loop}
use imooc_sock_core_tech.Io.{Handler}

-- The fields of `struct sockaddr_in` that the code reads.
pub record SockAddr : Type 0 where
  pub sin_port : ℕ
  pub s_addr : ℕ

-- `struct nwc_io_operation`: which function pointers are set. Each has one function in the program.
pub record IoOperation : Type 0 where
  pub userdata : ℕ
  pub on_accept : Bool
  pub on_connect : Bool
  pub on_recv : Bool
  pub on_send : Bool

-- `struct nwc_connection`; `recv_buff` holds the first `rbytes` bytes of the buffer.
pub record Conn (D : Type 0) : Type 0 where
  pub op : IoOperation
  pub qos : Qos D
  pub handle : NwcHandle
  pub cliaddr : SockAddr
  pub recv_buff : List ℕ
  pub rbytes : ℕ
  pub stat_wk_handle : NwcHandle
  pub send_wk_handle : NwcHandle

-- The answer to `recv` or `recvfrom`: the bytes, none of them at the end of the stream.
pub data RecvReply : Type 0 where
  received : List ℕ → RecvReply
  recv_failed : (errno : ℕ) → RecvReply

pub data SendReply : Type 0 where
  sent : ℕ → SendReply
  send_failed : (errno : ℕ) → SendReply

-- The answer to `accept`.
pub data AcceptReply : Type 0 where
  accepted : ℕ → AcceptReply
  accept_failed : (errno : ℕ) → AcceptReply

-- `brk` is the next address that `malloc` returns, which does not fail; `junk` is what it leaves
-- in the bytes of a payload. `wire` are the bytes that `send` accepted, with the descriptor, in order,
-- and `sent_datagrams` what `sendto` accepted, with the address (`none` for NULL) and its length.
pub record World (D : Type 0) : Type 0 where
  pub ios : ℕ → Option Handler
  pub conns : ℕ → Option (Conn D)
  pub conn_hdr : List ℕ
  pub listen_op : Option (ℕ × IoOperation)
  pub listen_handle : NwcHandle
  pub cfg : Configuration
  pub brk : ℕ
  pub junk : List ℕ
  pub closed_fds : List ℤ
  pub wire : List (ℤ × List ℕ)
  pub sent_datagrams : List (ℤ × List ℕ × Option SockAddr × ℕ)
  pub clock : List (ℕ × ℕ)
  pub recvs : List RecvReply
  pub peers : List SockAddr
  pub sends : List SendReply
  pub accepts : List AcceptReply
  pub sock_errors : List ℕ

abbrev pub State : Type 0 → Type 0
State D = Loop (World D)

abbrev pub Cmd : Type 0 → Type 0 → Type 0
Cmd D A = State D → Outcome (A × State D)

abbrev pub update {ℓ} : {A : Type ℓ} → (ℕ → Option A) → ℕ → Option A → ℕ → Option A
update f p v a = if a == p then v else f a

module _ {D : Type 0} where
  abbrev pub pure : {A : Type 0} → A → Cmd D A
  pure a s = done (a, s)

  abbrev pub failing : {A : Type 0} → Cmd D A
  failing s = fault

  infixl 5 ◌>>=◌ ◌>>◌
  abbrev pub ◌>>=◌ : {A B : Type 0} → Cmd D A → (A → Cmd D B) → Cmd D B
  ◌>>=◌ m f s = elim (m s) [ done (a, s') ↦ f a s' | fault ↦ fault | hang ↦ hang ]

  abbrev pub ◌>>◌ : {B : Type 0} → Cmd D (Unit {0}) → Cmd D B → Cmd D B
  m >> k = m >>= λ _. k

  abbrev pub get : Cmd D (World D)
  get s = done (s.user, s)

  abbrev pub put : World D → Cmd D (Unit {0})
  put w s = done (tt, record s { user = w })

  abbrev pub of_option : {A : Type 0} → Option A → Cmd D A
  of_option none s = fault
  of_option (some a) s = done (a, s)

  -- An operation of the looper.
  abbrev pub looper_do : {A : Type 0} → (State D → Outcome (A × State D)) → Cmd D A
  looper_do f = f

  unfoldable pub load_io : ℕ → Cmd D Handler
  load_io p s = of_option (s.user.ios p) s

  unfoldable pub store_io : ℕ → Handler → Cmd D (Unit {0})
  store_io p h s =
      done (tt, record s { user = record (s.user) { ios = update s.user.ios p (some h) } })

  unfoldable pub free_io : ℕ → Cmd D (Unit {0})
  free_io p s = done (tt, record s { user = record (s.user) { ios = update s.user.ios p none } })

  unfoldable pub load_conn : ℕ → Cmd D (Conn D)
  load_conn p s = of_option (s.user.conns p) s

  unfoldable pub store_conn : ℕ → Conn D → Cmd D (Unit {0})
  store_conn p c s =
      done (tt, record s { user = record (s.user) { conns = update s.user.conns p (some c) } })

  unfoldable pub free_conn : ℕ → Cmd D (Unit {0})
  free_conn p s =
      done (tt, record s { user = record (s.user) { conns = update s.user.conns p none } })

  unfoldable pub malloc : Cmd D ℕ
  malloc s = done (s.user.brk, record s { user = record (s.user) { brk = s.user.brk + 1 } })

  unfoldable pub close_fd : ℤ → Cmd D (Unit {0})
  close_fd fd s =
      done (tt, record s { user = record (s.user) { closed_fds = fd ∷ s.user.closed_fds } })

  -- `nwc_qos_milisecs()`
  unfoldable pub read_clock : Cmd D ℕ
  read_clock s = elim (s.user.clock) [
    | [] ↦ hang
    | t ∷ rest ↦ done (milisecs t.0 t.1, record s { user = record (s.user) { clock = rest } })
  ]
