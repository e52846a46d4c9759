-- ===== src/ListHead/Front.antt =====
-- `list_add` of list.h on a ring.
use imooc_sock_core_tech.Prelude.{ℕ, ◌≡◌, refl, false, List, [], ◌∷◌, arith, has, has-apart}
use imooc_sock_core_tech.ListHead.{Links, list_add_between, list_add}
use imooc_sock_core_tech.ListHead.Ring.{Ring, Seg-frame}

-- `list_add` puts a node that is not in the ring at its front.
pub Ring-add :
    (l : Links) (head new : ℕ) (xs : List ℕ)
    → Ring l head xs
    → has new (head ∷ xs) ≡ false
    → Ring (list_add new head l) head (new ∷ xs)
unfolding list_add list_add_between
Ring-add l head new [] r fresh = record {
  seg = (ground arith, ground arith, (ground (arith, r.seg), ground (arith, r.seg)));
  distinct = (ground arith, (refl, tt));
}
Ring-add l head new (x ∷ xs) r fresh = record {
  seg = (
    ground (arith, r.seg),
    ground (arith, r.seg),
    (
      ground (arith, r.seg),
      ground (arith, r.seg),
      Seg-frame l (list_add new head l) x xs head r.seg.2
          (λ b i.
            ground (arith, r.seg, r.distinct, has-apart head b (x ∷ xs), has-apart new b (x ∷ xs)))
          (λ b i.
            ground
              (arith, r.seg, r.distinct, has-apart x b (head ∷ xs), has-apart new b (head ∷ xs))),
    ),
  );
  distinct = (ground (arith, r.distinct), (ground arith, r.distinct.1));
}
