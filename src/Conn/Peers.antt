-- ===== src/Conn/Peers.antt =====
-- The UDP server's connection list (nwc_connection.c) and the addresses it stands for.
use imooc_sock_core_tech.Prelude.{
  ℕ, ◌+◌, ◌<◌, ◌≡◌, refl, Bool, true, false, ◌||◌, some, none, List, [], ◌∷◌, ◌++◌, arith,
  if◌then◌else◌, Option, Bool-cases, inl, inr,
}
use imooc_sock_core_tech.Outcome.{done}
use imooc_sock_core_tech.Qos.{DoubleOps}
use imooc_sock_core_tech.World.{SockAddr, Conn, State, load_conn, store_conn, malloc, update}
use imooc_sock_core_tech.Conn.{same_addr, connection_init, get_connection, add_nwc_tail}
use imooc_sock_core_tech.Conn.Accept.{peer_connection}

-- The address is that of a known peer.
abbrev pub has_addr : SockAddr → List SockAddr → Bool
has_addr from [] = false
has_addr from (a ∷ known) = same_addr a from || has_addr from known

-- The peers after a package from an address.
abbrev pub add_addr : SockAddr → List SockAddr → List SockAddr
add_addr from known = if has_addr from known then known else known ++ from ∷ []

-- No two peers have the same address.
abbrev pub DistinctAddrs : List SockAddr → Type 0
DistinctAddrs [] = Unit
DistinctAddrs (a ∷ known) = (has_addr a known ≡ false) × DistinctAddrs known

has_addr-snoc :
    (a b : SockAddr) (known : List SockAddr)
    → has_addr a (known ++ b ∷ []) ≡ (has_addr a known || same_addr b a)
has_addr-snoc a b [] = ground arith
has_addr-snoc a b (x ∷ known) = ground (arith, has_addr-snoc a b known)

same_addr_symm : (a b : SockAddr) → same_addr a b ≡ same_addr b a
same_addr_symm a b = ground arith

-- Taking an address up keeps the peers distinct.
pub add_addr-Distinct :
    (from : SockAddr) (known : List SockAddr)
    → DistinctAddrs known
    → DistinctAddrs (add_addr from known)
add_addr-Distinct from known d = elim (Bool-cases (has_addr from known)) [
  | inl old ↦ rw old d
  | inr new ↦ rw new (go known d new)
]
  where
    go :
        (ks : List SockAddr)
        → DistinctAddrs ks
        → has_addr from ks ≡ false
        → DistinctAddrs (ks ++ from ∷ [])
    go [] d new = (refl, tt)
    go (k ∷ ks) d new =
        (ground (arith, has_addr-snoc k from ks, same_addr_symm k from), go ks d.1 (ground arith))

module _ {D : Type 0} where
  -- The nodes of the connection list are connections below `brk`, and have these addresses.
  pub data PeerList (conns : ℕ → Option (Conn D)) (brk : ℕ) : List ℕ → List SockAddr → Type 0 where
    no_peer : PeerList conns brk [] []
    peer :
        {ns : List ℕ} {known : List SockAddr} (n : ℕ) (c : Conn D)
        → conns n ≡ some c
        → n < brk
        → PeerList conns brk ns known
        → PeerList conns brk (n ∷ ns) (c.cliaddr ∷ known)

  found_peer :
      (from : SockAddr) (s : State D) (ns : List ℕ) (known : List SockAddr)
      → PeerList s.user.conns s.user.brk ns known
      → has_addr from known ≡ true
      → (n : ℕ) × (c : Conn D) × (get_connection ns from s ≡ done (some n, s))
        × (s.user.conns n ≡ some c)
        × (same_addr c.cliaddr from ≡ true)
  unfolding get_connection load_conn
  found_peer from s _ _ no_peer old = cc
  found_peer from s _ _ (peer {ns} {known} n c at lo rest) old =
      elim (Bool-cases (same_addr c.cliaddr from)) [
        | inl same ↦ (n, c, ground arith, at, same)
        | inr other ↦
            let (m, d, got, there, same) = found_peer from s ns known rest (ground arith) in
            (m, d, ground (arith, got), there, same)
      ]

  no_such_peer :
      (from : SockAddr) (s : State D) (ns : List ℕ) (known : List SockAddr)
      → PeerList s.user.conns s.user.brk ns known
      → has_addr from known ≡ false
      → get_connection ns from s ≡ done (none, s)
  unfolding get_connection load_conn
  no_such_peer from s _ _ no_peer new = refl
  no_such_peer from s _ _ (peer {ns} {known} n c at lo rest) new =
      ground (arith, no_such_peer from s ns known rest)

  -- A new connection is put behind the others.
  PeerList-snoc :
      (conns : ℕ → Option (Conn D)) (brk : ℕ) (ns : List ℕ) (known : List SockAddr) (c : Conn D)
      → PeerList conns brk ns known
      → PeerList (update conns brk (some c)) (brk + 1) (ns ++ brk ∷ []) (known ++ c.cliaddr ∷ [])
  PeerList-snoc conns brk _ _ c no_peer = peer brk c (ground arith) (omega arith) no_peer
  PeerList-snoc conns brk _ _ c (peer {ns} {known} n d at lo rest) =
      peer n d (ground arith) (omega arith) (PeerList-snoc conns brk ns known c rest)

  module _ (F : DoubleOps D) (memory : Conn D) where
    -- Where the connection list stands for a list of distinct known addresses, a package from an
    -- address gives a connection with that port and address, and afterwards the connection list
    -- stands for the known addresses and, behind them, this one if it was not known; the addresses
    -- are distinct again, and nothing but the connections and their list has changed.
    pub peer_connection-add_addr :
        (from : SockAddr) (known : List SockAddr) (s : State D)
        → PeerList s.user.conns s.user.brk s.user.conn_hdr known
        → DistinctAddrs known
        → (n : ℕ) × (c : Conn D) × (brk : ℕ) × (conns : ℕ → Option (Conn D)) × (conn_hdr : List ℕ)
          × (peer_connection F memory from s
              ≡ done (
                n,
                record s {
                  user = record (s.user) { brk = brk; conns = conns; conn_hdr = conn_hdr };
                },
              ))
          × (conns n ≡ some c)
          × (same_addr c.cliaddr from ≡ true)
          × PeerList conns brk conn_hdr (add_addr from known)
          × DistinctAddrs (add_addr from known)
    unfolding peer_connection malloc store_conn add_nwc_tail
    peer_connection-add_addr from known s peers d = elim (Bool-cases (has_addr from known)) [
      | inl old ↦
          let (n, c, got, there, same) = found_peer from s s.user.conn_hdr known peers old in
          (
            n,
            c,
            s.user.brk,
            s.user.conns,
            s.user.conn_hdr,
            ground (arith, got),
            there,
            same,
            rw old peers,
            add_addr-Distinct from known d,
          )
      | inr new ↦
          let c : Conn D = record (connection_init F s.user.brk s.user.cfg memory) {
            cliaddr = from;
          } in
          (
            s.user.brk,
            c,
            s.user.brk + 1,
            update s.user.conns s.user.brk (some c),
            s.user.conn_hdr ++ s.user.brk ∷ [],
            ground (arith, no_such_peer from s s.user.conn_hdr known peers new),
            ground arith,
            ground arith,
            rw new (PeerList-snoc s.user.conns s.user.brk s.user.conn_hdr known c peers),
            add_addr-Distinct from known d,
          )
    ]
