-- ===== src/ListHead/Ring.antt =====
-- What the links of list.h stand for: a ring of distinct nodes around a head, in order.
use imooc_sock_core_tech.Prelude.{
  ℕ, ◌≡◌, ◌↔◌, refl, true, false, List, [], ◌∷◌, ◌++◌, arith, ◌==◌, has, Distinct, has-append,
  has-apart, Distinct-snoc, Distinct-without,
}
use imooc_sock_core_tech.ListHead.{
  Links, set_next, set_prev, init_list_head, list_add_between, list_add_tail, list_del_between,
  list_del, list_empty,
}

-- From `p` the nodes `xs` follow in order, then `q`; the backward links agree.
abbrev pub Seg : Links → ℕ → List ℕ → ℕ → Type 0
Seg l p [] q = (l.next p ≡ q) × (l.prev q ≡ p)
Seg l p (x ∷ xs) q = (l.next p ≡ x) × (l.prev x ≡ p) × Seg l x xs q

abbrev pub last : ℕ → List ℕ → ℕ
last a [] = a
last a (x ∷ xs) = last x xs

abbrev pub first : List ℕ → ℕ → ℕ
first [] q = q
first (x ∷ xs) q = x

pub record Ring (l : Links) (head : ℕ) (xs : List ℕ) : Type 0 where
  pub seg : Seg l head xs head
  pub distinct : Distinct (head ∷ xs)

pub has-last : (a : ℕ) (xs : List ℕ) → has (last a xs) (a ∷ xs) ≡ true
has-last a [] = ground arith
has-last a (x ∷ xs) = ground (arith, has-last x xs)

pub has-first : (ys : List ℕ) (q : ℕ) → has (first ys q) (q ∷ ys) ≡ true
has-first [] q = ground arith
has-first (y ∷ ys) q = ground arith

pub prev-last : (l : Links) (a : ℕ) (xs : List ℕ) (q : ℕ) → Seg l a xs q → l.prev q ≡ last a xs
prev-last l a [] q s = s.1
prev-last l a (x ∷ xs) q s = prev-last l x xs q s.2

pub next-first : (l : Links) (a : ℕ) (xs : List ℕ) (q : ℕ) → Seg l a xs q → l.next a ≡ first xs q
next-first l a [] q s = s.0
next-first l a (x ∷ xs) q s = s.0

neighbours :
    (l : Links) (a e : ℕ) (xs ys : List ℕ) (q : ℕ)
    → Seg l a (xs ++ e ∷ ys) q
    → (l.prev e ≡ last a xs) × (l.next e ≡ first ys q)
neighbours l a e [] ys q s = (s.1, next-first l e ys q s.2)
neighbours l a e (x ∷ xs) ys q s = neighbours l x e xs ys q s.2

-- A segment survives a change that spares its forward and backward links.
pub Seg-frame :
    (l l' : Links) (a : ℕ) (xs : List ℕ) (q : ℕ)
    → Seg l a xs q
    → ((b : ℕ) → has b (a ∷ xs) ≡ true → l'.next b ≡ l.next b)
    → ((b : ℕ) → has b (q ∷ xs) ≡ true → l'.prev b ≡ l.prev b)
    → Seg l' a xs q
Seg-frame l l' a [] q s fn fp = (ground (arith, fn a), ground (arith, fp q))
Seg-frame l l' a (x ∷ xs) q s fn fp = (
  ground (arith, fn a),
  ground (arith, fp x),
  Seg-frame l l' x xs q s.2 (λ b i. fn b (ground arith)) (λ b i. fp b (ground arith)),
)

module _ (l : Links) (new q : ℕ) where
  add-Seg :
      (a : ℕ) (xs : List ℕ)
      → Seg l a xs q
      → Distinct (a ∷ xs)
      → has q xs ≡ false
      → has new (a ∷ xs) ≡ false
      → (new == q) ≡ false
      → Seg (list_add_between new (last a xs) q l) a (xs ++ new ∷ []) q
  unfolding list_add_between
  add-Seg a [] s d out fresh ne = (ground arith, ground arith, (ground arith, ground arith))
  add-Seg a (x ∷ xs) s d out fresh ne = (
    ground (arith, has-last x xs),
    ground arith,
    add-Seg x xs s.2 d.1 (ground arith) (ground arith) ne,
  )

-- The writes of `list_del`, with the two neighbours as arguments.
unlink : (p n e : ℕ) → Links → Links
unfolding list_del_between
unlink p n e l = set_prev e 0 (set_next e 0 (list_del_between p n l))

module _ (l : Links) (e q : ℕ) where
  del-Seg_front :
      (a : ℕ) (ys : List ℕ)
      → Seg l a (e ∷ ys) q
      → Distinct (a ∷ e ∷ ys)
      → has q (e ∷ ys) ≡ false
      → Seg (unlink a (first ys q) e l) a ys q
  unfolding unlink
  del-Seg_front a [] s d out = (ground arith, ground arith)
  del-Seg_front a (y ∷ ys) s d out = (
    ground arith,
    ground arith,
    Seg-frame l (unlink a y e l) y ys q s.2.2
        (λ b i. ground (arith, has-apart a b (y ∷ ys), has-apart e b (y ∷ ys)))
        (λ b i. ground (arith, has-apart y b (q ∷ ys), has-apart e b (q ∷ ys))),
  )

  del-Seg :
      (a : ℕ) (xs ys : List ℕ)
      → Seg l a (xs ++ e ∷ ys) q
      → Distinct (a ∷ xs ++ e ∷ ys)
      → has q (xs ++ e ∷ ys) ≡ false
      → Seg (unlink (last a xs) (first ys q) e l) a (xs ++ ys) q
  unfolding unlink
  del-Seg a [] ys s d out = del-Seg_front a ys s d out
  del-Seg a (x ∷ xs) ys s d out = (
    ground (arith, has-append a xs (e ∷ ys), has-apart a (last x xs) (x ∷ xs), has-last x xs),
    ground (
      arith,
      has-append x xs (e ∷ ys),
      has-append q xs (e ∷ ys),
      has-first ys q,
      has-apart x (first ys q) (q ∷ ys),
    ),
    del-Seg x xs ys s.2 d.1 (ground arith),
  )

module _ (l : Links) (head : ℕ) where
  pub Ring-init : Ring (init_list_head head l) head []
  unfolding init_list_head
  Ring-init = record { seg = (ground arith, ground arith); distinct = (refl, tt) }

  -- `list_add_tail` puts a node that is not in the ring at its end.
  pub Ring-add_tail :
      (new : ℕ) (xs : List ℕ)
      → Ring l head xs
      → has new (head ∷ xs) ≡ false
      → Ring (list_add_tail new head l) head (xs ++ new ∷ [])
  unfolding list_add_tail
  Ring-add_tail new xs r fresh = record {
    seg =
        rw (prev-last l head xs head r.seg)
          (add-Seg l new head head xs r.seg r.distinct r.distinct.0 fresh (ground arith));
    distinct = Distinct-snoc (head ∷ xs) new r.distinct fresh;
  }

  -- `list_del` takes its node out of a ring and keeps the order of the others.
  pub Ring-del :
      (e : ℕ) (xs ys : List ℕ) → Ring l head (xs ++ e ∷ ys) → Ring (list_del e l) head (xs ++ ys)
  unfolding list_del unlink
  Ring-del e xs ys r = record {
    seg =
        rw ((neighbours l head e xs ys head r.seg).0, (neighbours l head e xs ys head r.seg).1)
          (del-Seg l e head head xs ys r.seg r.distinct r.distinct.0);
    distinct = Distinct-without (head ∷ xs) ys e r.distinct;
  }

  -- `list_empty` tells whether the ring has no node.
  pub list_empty-Ring : (xs : List ℕ) → Ring l head xs → (list_empty head l ≡ true) ↔ (xs ≡ [])
  unfolding list_empty
  list_empty-Ring [] r = (λ _. refl, λ _. ground arith)
  list_empty-Ring (x ∷ xs) r = (λ h. ground arith, λ h. cc)

-- Two rings that share no node.
abbrev pub Apart : ℕ → List ℕ → ℕ → List ℕ → Type 0
Apart h xs g ys = (b : ℕ) → has b (g ∷ ys) ≡ true → has b (h ∷ xs) ≡ false

module _ (l : Links) (head other : ℕ) (xs ys : List ℕ) where
  pub Ring-del_other :
      (e : ℕ) (zs : List ℕ)
      → Ring l head (xs ++ e ∷ zs)
      → Ring l other ys
      → Apart head (xs ++ e ∷ zs) other ys
      → Ring (list_del e l) other ys
  unfolding list_del unlink
  Ring-del_other e zs r o apart = record {
    seg =
        Seg-frame l (list_del e l) other ys other o.seg (λ b i. ground (arith, apart b i, near b i))
          (λ b i. ground (arith, apart b i, near b i));
    distinct = o.distinct;
  }
    where
      ends : (l.prev e ≡ last head xs) × (l.next e ≡ first zs head)
      ends = neighbours l head e xs zs head r.seg

      near :
          (b : ℕ)
          → has b (other ∷ ys) ≡ true
          → ((b == e) ≡ false) × ((b == l.prev e) ≡ false) × ((b == l.next e) ≡ false)
      near b i = ground (
        arith,
        ends,
        apart b i,
        has-append b xs (e ∷ zs),
        has-last head xs,
        has-first zs head,
        has-apart b (last head xs) (head ∷ xs),
        has-apart b (first zs head) (head ∷ zs),
      )

  pub Ring-add_tail_other :
      (new : ℕ)
      → Ring l head xs
      → Ring l other ys
      → Apart head xs other ys
      → has new (other ∷ ys) ≡ false
      → Ring (list_add_tail new head l) other ys
  unfolding list_add_tail list_add_between
  Ring-add_tail_other new r o apart fresh = record {
    seg =
        Seg-frame l (list_add_tail new head l) other ys other o.seg (λ b i. spared b i)
          (λ b i. spared' b i);
    distinct = o.distinct;
  }
    where
      near : (b : ℕ) → has b (other ∷ ys) ≡ true → (b == l.prev head) ≡ false
      near b i = ground (
        arith,
        prev-last l head xs head r.seg,
        apart b i,
        has-last head xs,
        has-apart b (last head xs) (head ∷ xs),
      )

      spared : (b : ℕ) → has b (other ∷ ys) ≡ true → (list_add_tail new head l).next b ≡ l.next b
      spared b i = ground (arith, near b i, apart b i, has-apart new b (other ∷ ys))

      spared' : (b : ℕ) → has b (other ∷ ys) ≡ true → (list_add_tail new head l).prev b ≡ l.prev b
      spared' b i = ground (arith, near b i, apart b i, has-apart new b (other ∷ ys))
