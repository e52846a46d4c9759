-- ===== src/ListHead/Walk.antt =====
-- The loops of list.h over a ring.
use imooc_sock_core_tech.Prelude.{
  ℕ, zero, suc, ◌<◌, ◌≡◌, ◌∙◌, sym, false, some, List, [], ◌∷◌, arith, has, length, ==-refl,
}
use imooc_sock_core_tech.ListHead.{Links, list_for_each, list_for_each_safe, list_del}
use imooc_sock_core_tech.ListHead.Ring.{Seg, Ring, Ring-del, next-first}

for_each-Seg :
    (k : ℕ) (l : Links) (a : ℕ) (xs : List ℕ) (h : ℕ)
    → Seg l a xs h
    → has h xs ≡ false
    → length xs < k
    → list_for_each k (l.next a) h l ≡ some xs
unfolding list_for_each
for_each-Seg zero l a xs h s out fuel = absurd (omega arith)
for_each-Seg (suc k) l a [] h s out fuel = ground (arith, ==-refl h)
for_each-Seg (suc k) l a (x ∷ xs) h s out fuel = ground (arith, for_each-Seg k l x xs h s.2)

-- `list_for_each` over a ring visits its nodes once each, in order, and ends, with fuel for one
-- turn more than there are nodes.
pub list_for_each-Ring :
    (k : ℕ) (l : Links) (h : ℕ) (xs : List ℕ)
    → Ring l h xs
    → length xs < k
    → list_for_each k (l.next h) h l ≡ some xs
list_for_each-Ring k l h xs r fuel = for_each-Seg k l h xs h r.seg r.distinct.0 fuel

-- `list_for_each_safe` with a body that deletes the node it is at ends, with fuel for one turn more
-- than there are nodes, and leaves the ring empty.
pub list_for_each_safe-del :
    (k : ℕ) (l : Links) (h : ℕ) (xs : List ℕ)
    → Ring l h xs
    → length xs < k
    → (l' : Links) × (list_for_each_safe k (l.next h) (l.next (l.next h)) h list_del l ≡ some l')
      × Ring l' h []
unfolding list_for_each_safe
list_for_each_safe-del zero l h xs r fuel = absurd (omega arith)
list_for_each_safe-del (suc k) l h [] r fuel = (l, ground (arith, r.seg), r)
list_for_each_safe-del (suc k) l h (x ∷ xs) r fuel =
    let rest = Ring-del l h x [] xs r in
    let (l', runs, empty) = list_for_each_safe-del k (list_del x l) h xs rest (omega arith) in
    let at : (list_del x l).next h ≡ l.next x =
      next-first (list_del x l) h xs h rest.seg ∙ sym (next-first l x xs h r.seg.2) in
    (l', rw (r.seg.0) (rw (← at) (ground (arith, runs, r.distinct.0))), empty)
