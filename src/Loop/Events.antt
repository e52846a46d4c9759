-- ===== src/Loop/Events.antt =====
-- What a round of `nwc_epoll_run` does with removed entries.
use imooc_sock_core_tech.Prelude.{
  ℕ, ◌≡◌, false, none, some, List, [], ◌∷◌, arith, ◌==◌, if◌then◌else◌, has, Distinct, refl, inl,
  inr, Bool-cases,
}
use imooc_sock_core_tech.Prelude.Int.{negsuc}
use imooc_sock_core_tech.Outcome.{Outcome, done, >>=-eq-done}
use imooc_sock_core_tech.Loop.{EpollEntry, Loop, EpollCtl}
use imooc_sock_core_tech.Loop.Workers.{delete_removed_worker_lem}
use imooc_sock_core_tech.Loop.Epoll.{
  find_entry, free_entry, entry_at, set_entry, epoll_ctl, epoll_remove_handler,
}
use imooc_sock_core_tech.Loop.Run.{Ready, handle_ready, handle_all, free_entries, clean_up}
use imooc_sock_core_tech.Loop.Registration.{find_entry-addr, find_entry-put, entry_at-done}

-- Every event is for the entry `a`.
abbrev pub AllFor : ℕ → List Ready → Type 0
AllFor a [] = Unit
AllFor a (ev ∷ evs) = (ev.ptr ≡ a) × AllFor a evs

abbrev pub addresses : List EpollEntry → List ℕ
addresses [] = []
addresses (e ∷ es) = e.addr ∷ addresses es

find_entry-has :
    (a : ℕ) (es : List EpollEntry) → has a (addresses es) ≡ false → find_entry a es ≡ none
unfolding find_entry
find_entry-has a [] out = refl
find_entry-has a (e ∷ es) out = ground (arith, find_entry-has a es)

find_entry-free :
    (a b : ℕ) (es : List EpollEntry)
    → Distinct (addresses es)
    → find_entry b (free_entry a es) ≡ (if a == b then none else find_entry b es)
unfolding find_entry free_entry
find_entry-free a b [] d = ground arith
find_entry-free a b (e ∷ es) d =
    ground (arith, find_entry-free a b es d.1, find_entry-has a es, d.0)

has-free :
    (a b : ℕ) (es : List EpollEntry)
    → has b (addresses es) ≡ false
    → has b (addresses (free_entry a es)) ≡ false
unfolding free_entry
has-free a b [] out = refl
has-free a b (e ∷ es) out = ground (arith, has-free a b es)

Distinct-free :
    (a : ℕ) (es : List EpollEntry)
    → Distinct (addresses es)
    → Distinct (addresses (free_entry a es))
unfolding free_entry
Distinct-free a [] d = tt
Distinct-free a (e ∷ es) d = elim (Bool-cases (e.addr == a)) [
  | inl same ↦ rw same d.1
  | inr other ↦ rw other (has-free a e.addr es d.0, Distinct-free a es d.1)
]

module _ {U : Type 0} where
  free_entries-find :
      (removed : List ℕ) (b : ℕ) (looper : Loop U)
      → Distinct (addresses looper.entries)
      → find_entry b (free_entries removed looper).entries
        ≡ (if has b removed then none else find_entry b looper.entries)
  unfolding free_entries
  free_entries-find [] b looper d = refl
  free_entries-find (a ∷ removed) b looper d =
      let looper' : Loop U = record looper {
        entries = free_entry a looper.entries;
        removed_epoll_entrys = removed;
      } in
      ground (
        arith,
        free_entries-find removed b looper' (Distinct-free a looper.entries d),
        find_entry-free a b looper.entries d,
      )

  free_entries-rest :
      (removed : List ℕ) (looper : Loop U)
      → looper.removed_epoll_entrys ≡ removed
      → (free_entries removed looper).removed_epoll_entrys ≡ []
  unfolding free_entries
  free_entries-rest [] looper e = e
  free_entries-rest (a ∷ removed) looper e = free_entries-rest removed _ refl

  -- For entries at distinct addresses: after the end of a round an address has an entry exactly if
  -- it had one and was not removed, the entry is the same, and no removed entry and no removed
  -- worker is left.
  pub clean_up-frees :
      (b : ℕ) (looper : Loop U)
      → Distinct (addresses looper.entries)
      → (find_entry b (clean_up looper).entries
          ≡ (if has b looper.removed_epoll_entrys then none else find_entry b looper.entries))
        × ((clean_up looper).removed_epoll_entrys ≡ [])
        × ((clean_up looper).removed_worker_hdr ≡ [])
  unfolding clean_up
  clean_up-frees b looper d =
      rw (delete_removed_worker_lem (free_entries looper.removed_epoll_entrys looper)) (
        free_entries-find looper.removed_epoll_entrys b looper d,
        free_entries-rest looper.removed_epoll_entrys looper refl,
        refl,
      )

  entry_at-some :
      (a : ℕ) (entry : EpollEntry) (looper : Loop U)
      → find_entry a looper.entries ≡ some entry
      → entry_at a looper ≡ done entry
  unfolding entry_at
  entry_at-some a entry looper found = ground (arith, found)

  module _ (handle_input handle_output : (handler : ℕ) → Loop U → Outcome (Loop U)) where
    skipped :
        (a : ℕ) (entry : EpollEntry) (evs : List Ready) (looper : Loop U)
        → find_entry a looper.entries ≡ some entry
        → entry.fd ≡ negsuc 0
        → AllFor a evs
        → handle_all handle_input handle_output evs looper ≡ done looper
    unfolding handle_all handle_ready
    skipped a entry [] looper found gone all = refl
    skipped a entry (ev ∷ evs) looper found gone (here, all) =
        let at : entry_at ev.ptr looper ≡ done entry =
          entry_at-some ev.ptr entry looper (rw here found) in
        rw (at, gone) (skipped a entry evs looper found gone all)

    -- Once an entry has been removed, whatever `epoll_ctl` answered, any number of ready events for
    -- it are skipped: no handler is called and the looper does not change.
    pub epoll_remove_handler-skips :
        (ctl : EpollCtl) (a rc : ℕ) (evs : List Ready) (looper looper' : Loop U)
        → epoll_remove_handler ctl a looper ≡ done (rc, looper')
        → AllFor a evs
        → handle_all handle_input handle_output evs looper' ≡ done looper'
    unfolding epoll_remove_handler epoll_ctl set_entry
    epoll_remove_handler-skips ctl a rc evs looper looper' e all =
        let (entry, at, rest) = >>=-eq-done (entry_at a looper) _ e in
        let found = entry_at-done ctl a looper entry at in
        let addr = find_entry-addr a looper.entries entry found in
        let new : EpollEntry = record entry { mask = 0; fd = negsuc 0 } in
        skipped a new evs looper'
          (ground (arith, rest, addr, find_entry-put a looper.entries entry new (rw addr found)))
          refl all
