-- ===== src/Checker/NwcLinks.antt =====
-- The links of nwc_connection.c and nwc_connection.h (04-24_UNIX异步IO机制): a ring of connections
-- around a header, with addresses and links as in ListHead. `addr` gives the address that each holds.
use mathlib.Core.Path.{fun_ext}
use imooc_sock_core_tech.Prelude.{
  ℕ, zero, suc, ◌<◌, ◌≡◌, refl, Bool, false, ◌&&◌, Option, none, some, List, [], ◌∷◌, ◌++◌, arith,
  ◌==◌, has, length, ==-refl, has-apart, Distinct-middle, if◌then◌else◌,
}
use imooc_sock_core_tech.World.{SockAddr}
use imooc_sock_core_tech.ListHead.{
  Links, set_next, set_prev, list_add_between, list_add_tail, list_del_between, list_del,
}
use imooc_sock_core_tech.ListHead.Ring.{Seg, Seg-frame, Ring, Ring-add_tail, Ring-del}

-- `INIT_NWC`
unfoldable pub init_nwc : (nwc : ℕ) → Links → Links
unfolding set_next set_prev
init_nwc nwc l = set_prev nwc nwc (set_next nwc nwc l)

unfoldable pub add_nwc_tail_links : (hdr nwc : ℕ) → Links → Links
unfolding set_next set_prev
add_nwc_tail_links hdr nwc l =
    let prev = l.prev hdr in
    set_prev hdr nwc (set_next prev nwc (set_next nwc hdr (set_prev nwc prev l)))

unfoldable pub remove_nwc_links : (nwc : ℕ) → Links → Links
unfolding set_next set_prev
remove_nwc_links nwc l = set_prev (l.next nwc) (l.prev nwc) (set_next (l.prev nwc) (l.next nwc) l)

abbrev pub same_address : SockAddr → SockAddr → Bool
same_address a b = (a.sin_port == b.sin_port) && (a.s_addr == b.s_addr)

module _ (addr : ℕ → SockAddr) where
  -- The walk from `nwc`; the inner `none` is NULL, the outer one stands for fuel that has run out.
  unfoldable pub get_nwc_connection :
      (fuel nwc hdr : ℕ) (dstaddr : SockAddr) → Links → Option (Option ℕ)
  get_nwc_connection zero nwc hdr dstaddr l = none
  get_nwc_connection (suc k) nwc hdr dstaddr l =
      let rest = get_nwc_connection k (l.next nwc) hdr dstaddr l in
      if nwc == hdr
      then some none
      else if same_address (addr nwc) dstaddr
      then some (some nwc)
      else rest

-- `destroy_all_nwc`: the connections that are freed, in order, from `nwc` on.
unfoldable pub destroy_all_nwc_links : (fuel nwc hdr : ℕ) → Links → Option (List ℕ)
destroy_all_nwc_links zero nwc hdr l = none
destroy_all_nwc_links (suc k) nwc hdr l =
    let rest = destroy_all_nwc_links k (l.next nwc) hdr l in
    if nwc == hdr then some [] else elim rest [ none ↦ none | some xs ↦ some (nwc ∷ xs) ]

-- The first connection with the address, in the order of the ring.
abbrev pub first_with : (addr : ℕ → SockAddr) (dstaddr : SockAddr) → List ℕ → Option ℕ
first_with addr dstaddr [] = none
first_with addr dstaddr (x ∷ xs) =
    if same_address (addr x) dstaddr then some x else first_with addr dstaddr xs

add_nwc_tail_links-list_add_tail :
    (hdr nwc : ℕ) (l : Links)
    → (nwc == hdr) ≡ false
    → add_nwc_tail_links hdr nwc l ≡ list_add_tail nwc hdr l
unfolding add_nwc_tail_links list_add_tail list_add_between
add_nwc_tail_links-list_add_tail hdr nwc l apart = λ i. record {
  next = fun_ext {g = (list_add_tail nwc hdr l).next} (λ a. refl) i;
  prev =
      fun_ext {f = (add_nwc_tail_links hdr nwc l).prev} {g = (list_add_tail nwc hdr l).prev}
        (λ a. ground arith) i;
}

find-Seg :
    (k : ℕ) (addr : ℕ → SockAddr) (dst : SockAddr) (l : Links) (a : ℕ) (xs : List ℕ) (hdr : ℕ)
    → Seg l a xs hdr
    → has hdr xs ≡ false
    → length xs < k
    → get_nwc_connection addr k (l.next a) hdr dst l ≡ some (first_with addr dst xs)
unfolding get_nwc_connection
find-Seg zero addr dst l a xs hdr s out fuel = absurd (omega arith)
find-Seg (suc k) addr dst l a [] hdr s out fuel = ground (arith, ==-refl hdr)
find-Seg (suc k) addr dst l a (x ∷ xs) hdr s out fuel =
    ground (arith, find-Seg k addr dst l x xs hdr s.2)

free-Seg :
    (k : ℕ) (l : Links) (a : ℕ) (xs : List ℕ) (hdr : ℕ)
    → Seg l a xs hdr
    → has hdr xs ≡ false
    → length xs < k
    → destroy_all_nwc_links k (l.next a) hdr l ≡ some xs
unfolding destroy_all_nwc_links
free-Seg zero l a xs hdr s out fuel = absurd (omega arith)
free-Seg (suc k) l a [] hdr s out fuel = ground (arith, ==-refl hdr)
free-Seg (suc k) l a (x ∷ xs) hdr s out fuel = ground (arith, free-Seg k l x xs hdr s.2)

module _ (k : ℕ) (addr : ℕ → SockAddr) (hdr : ℕ) (xs : List ℕ) (l : Links)
    (ring : Ring l hdr xs) where
  -- Where the links of the connections hold a sequence in a ring behind the header, and fuel for
  -- one turn more than there are connections: adding a connection that is not in it makes the links
  -- hold the sequence with it at the end; the search returns the first connection of the sequence
  -- with the address, or none; and the final walk frees each connection of the sequence once, in
  -- order.
  pub linked_connections :
      (nwc : ℕ) (dst : SockAddr)
      → has nwc (hdr ∷ xs) ≡ false
      → length xs < k
      → Ring (add_nwc_tail_links hdr nwc l) hdr (xs ++ nwc ∷ [])
        × (get_nwc_connection addr k (l.next hdr) hdr dst l ≡ some (first_with addr dst xs))
        × (destroy_all_nwc_links k (l.next hdr) hdr l ≡ some xs)
  linked_connections nwc dst fresh fuel = (
    rw (add_nwc_tail_links-list_add_tail hdr nwc l (ground arith))
        (Ring-add_tail l hdr nwc xs ring fresh),
    find-Seg k addr dst l hdr xs hdr ring.seg ring.distinct.0 fuel,
    free-Seg k l hdr xs hdr ring.seg ring.distinct.0 fuel,
  )

pub remove_nwc_links-Ring :
    (hdr e : ℕ) (xs ys : List ℕ) (l : Links)
    → Ring l hdr (xs ++ e ∷ ys)
    → Ring (remove_nwc_links e l) hdr (xs ++ ys)
unfolding remove_nwc_links list_del list_del_between
remove_nwc_links-Ring hdr e xs ys l ring = record {
  seg =
      Seg-frame (list_del e l) (remove_nwc_links e l) hdr (xs ++ ys) hdr rest.seg
        (λ b i.
          ground
            (arith, has-apart e b (hdr ∷ xs ++ ys), Distinct-middle (hdr ∷ xs) ys e ring.distinct))
        (λ b i.
          ground
            (arith, has-apart e b (hdr ∷ xs ++ ys), Distinct-middle (hdr ∷ xs) ys e ring.distinct));
  distinct = rest.distinct;
}
  where
    rest : Ring (list_del e l) hdr (xs ++ ys)
    rest = Ring-del l hdr e xs ys ring
