-- ===== src/Examples/Lists.antt =====
-- The rings of list.h.
use imooc_sock_core_tech.Prelude.{refl, [], ◌∷◌, ◌==◌, if◌then◌else◌}
use imooc_sock_core_tech.ListHead.{Links}
use imooc_sock_core_tech.ListHead.Ring.{Ring}

-- The head 1 and the nodes 7 and 8.
abbrev links : Links
links = record {
  next = λ p. if p == 1 then 7 else if p == 7 then 8 else 1;
  prev = λ p. if p == 1 then 8 else if p == 7 then 1 else 7;
}

two_nodes : Ring links 1 (7 ∷ 8 ∷ [])
two_nodes = record {
  seg = (refl, refl, (refl, refl, (refl, refl)));
  distinct = (refl, (refl, (refl, tt)));
}
