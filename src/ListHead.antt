-- ===== src/ListHead.antt =====
-- The intrusive circular lists of 04-30_nwchecker_refactor/list.h. A `struct list_head *` is an
-- address, 0 is NULL, and the two link fields of all nodes are the two functions of `Links`.
use imooc_sock_core_tech.Prelude.{
  ℕ, zero, suc, Bool, Option, none, some, List, [], ◌∷◌, ◌==◌, if◌then◌else◌,
}
pub mod Ring
pub mod Walk
pub mod Front

pub record Links : Type 0 where
  pub next : ℕ → ℕ
  pub prev : ℕ → ℕ

abbrev update : (ℕ → ℕ) → ℕ → ℕ → ℕ → ℕ
update f p v a = if a == p then v else f a

-- `p->next = q`
unfoldable pub set_next : ℕ → ℕ → Links → Links
set_next p q l = record l { next = update l.next p q }

-- `p->prev = q`
unfoldable pub set_prev : ℕ → ℕ → Links → Links
set_prev p q l = record l { prev = update l.prev p q }

unfoldable pub init_list_head : ℕ → Links → Links
unfolding set_next set_prev
init_list_head list l = set_prev list list (set_next list list l)

-- `__list_add`
unfoldable pub list_add_between : (new prev next : ℕ) → Links → Links
unfolding set_next set_prev
list_add_between new prev next l =
    set_next prev new (set_prev new prev (set_next new next (set_prev next new l)))

unfoldable pub list_add : (new head : ℕ) → Links → Links
list_add new head l = list_add_between new head (l.next head) l

unfoldable pub list_add_tail : (new head : ℕ) → Links → Links
list_add_tail new head l = list_add_between new (l.prev head) head l

-- `__list_del`
unfoldable pub list_del_between : (prev next : ℕ) → Links → Links
unfolding set_next set_prev
list_del_between prev next l = set_next prev next (set_prev next prev l)

unfoldable pub list_del : (entry : ℕ) → Links → Links
unfolding set_next set_prev
list_del entry l =
    set_prev entry 0 (set_next entry 0 (list_del_between (l.prev entry) (l.next entry) l))

unfoldable pub list_empty : (head : ℕ) → Links → Bool
list_empty head l = l.next head == head

-- `list_for_each`: the positions visited, `none` when the fuel runs out.
unfoldable pub list_for_each : (fuel pos head : ℕ) → Links → Option (List ℕ)
list_for_each zero pos head l = none
list_for_each (suc k) pos head l =
    let rest = list_for_each k (l.next pos) head l in
    if pos == head then some [] else elim rest [ none ↦ none | some xs ↦ some (pos ∷ xs) ]

-- `list_for_each_safe`: `n` is read before the body runs. The result is the links at the end.
unfoldable pub list_for_each_safe :
    (fuel pos n head : ℕ) → (ℕ → Links → Links) → Links → Option Links
list_for_each_safe zero pos n head body l = none
list_for_each_safe (suc k) pos n head body l =
    let l' = body pos l in
    let rest = list_for_each_safe k n (l'.next n) head body l' in
    if pos == head then some l else rest
