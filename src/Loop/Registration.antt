-- ===== src/Loop/Registration.antt =====
-- The masks of nwc_epoll_looper.c and what the kernel was last told.
use mathlib.Core.Path.{subst}
use imooc_sock_core_tech.Prelude.{
  ℕ, ◌≡◌, Option, none, some, List, [], ◌∷◌, arith, ◌==◌, if◌then◌else◌, inl, inr, Bool-cases,
  Option-cases, refl,
}
use imooc_sock_core_tech.Prelude.Int.{ℤ, negsuc}
use imooc_sock_core_tech.Outcome.{done, >>=-eq-done}
use imooc_sock_core_tech.Loop.{EpollEntry, ctl_add, CtlCall, Loop, EpollCtl}
use imooc_sock_core_tech.Loop.Epoll.{
  find_entry, put_entry, epoll_events, entry_at, set_entry, epoll_ctl, epoll_add_handler,
  epoll_remove_handler, epoll_register_event, epoll_cancel_event,
}

-- The last `epoll_ctl` call made for an entry.
abbrev pub last_call : ℕ → List CtlCall → Option CtlCall
last_call a [] = none
last_call a (c ∷ cs) = if c.entry == a then some c else last_call a cs

pub find_entry-addr :
    (a : ℕ) (es : List EpollEntry) (e : EpollEntry) → find_entry a es ≡ some e → e.addr ≡ a
unfolding find_entry
find_entry-addr a [] e h = cc
find_entry-addr a (x ∷ es) e h = ground (arith, find_entry-addr a es e)

pub find_entry-put :
    (b : ℕ) (es : List EpollEntry) (old new : EpollEntry)
    → find_entry new.addr es ≡ some old
    → find_entry b (put_entry new es) ≡ (if new.addr == b then some new else find_entry b es)
unfolding find_entry put_entry
find_entry-put b [] old new h = cc
find_entry-put b (x ∷ es) old new h = ground (arith, find_entry-put b es old new)

module _ {U : Type 0} where
  -- For every allocated entry, the last call told the kernel the events of the entry's mask.
  pub record IsSynced (looper : Loop U) : Type 0 where
    pub told :
        (a : ℕ) (e : EpollEntry)
        → find_entry a looper.entries ≡ some e
        → (c : CtlCall) × (last_call a looper.ctl_calls ≡ some c) × (c.events ≡ epoll_events e.mask)

  module _ (ctl : EpollCtl) where
    -- The operations of the looper that touch entries; a new entry's address is unused.
    pub data EpollStep : Loop U → Loop U → Type 0 where
      adds :
          (a handler : ℕ) (fd : ℤ) (looper : Loop U)
          → find_entry a looper.entries ≡ none
          → EpollStep looper (epoll_add_handler ctl (some a) handler fd looper).1
      removes :
          (a rc : ℕ) (looper looper' : Loop U)
          → epoll_remove_handler ctl a looper ≡ done (rc, looper')
          → EpollStep looper looper'
      registers :
          (a events rc : ℕ) (looper looper' : Loop U)
          → epoll_register_event ctl a events looper ≡ done (rc, looper')
          → EpollStep looper looper'
      cancels :
          (a events rc : ℕ) (looper looper' : Loop U)
          → epoll_cancel_event ctl a events looper ≡ done (rc, looper')
          → EpollStep looper looper'

    pub data EpollReach (looper : Loop U) : Loop U → Type 0 where
      here : EpollReach looper looper
      next : {mid end : Loop U} → EpollReach looper mid → EpollStep mid end → EpollReach looper end

    put_call-IsSynced :
        (looper : Loop U) (old new : EpollEntry) (call : CtlCall) (removed : List ℕ)
        → IsSynced looper
        → find_entry new.addr looper.entries ≡ some old
        → call.entry ≡ new.addr
        → call.events ≡ epoll_events new.mask
        → IsSynced (record looper {
          entries = put_entry new looper.entries;
          ctl_calls = call ∷ looper.ctl_calls;
          removed_epoll_entrys = removed;
        })
    put_call-IsSynced looper old new call removed sync found names events = record {
      told = λ a e h. elim (Bool-cases (new.addr == a)) [
        | inl is_it ↦ (
          call,
          ground (arith, find_entry-put a looper.entries old new found),
          ground (arith, find_entry-put a looper.entries old new found),
        )
        | inr other ↦
            let (c, last, same) =
              sync.told a e (ground (arith, find_entry-put a looper.entries old new found)) in
            (c, ground (arith, last), same)
      ];
    }

    pub entry_at-done :
        (a : ℕ) (looper : Loop U) (e : EpollEntry)
        → entry_at a looper ≡ done e
        → find_entry a looper.entries ≡ some e
    unfolding entry_at
    entry_at-done a looper e h = ground (arith, Option-cases (find_entry a looper.entries))

    IsSynced-done : (p q : ℕ × Loop U) → IsSynced p.1 → done p ≡ done q → IsSynced q.1
    IsSynced-done p q sync e = let same : p ≡ q = cc in subst (λ x. IsSynced x.1) same sync

    epoll_add_handler-IsSynced :
        (a handler : ℕ) (fd : ℤ) (looper : Loop U)
        → find_entry a looper.entries ≡ none
        → IsSynced looper
        → IsSynced (epoll_add_handler ctl (some a) handler fd looper).1
    unfolding epoll_add_handler epoll_ctl find_entry
    epoll_add_handler-IsSynced a handler fd looper unused sync = record {
      told = λ x e h. elim (Bool-cases (a == x)) [
        | inl is_it ↦ (
          record { op = ctl_add; entry = a; fd = fd; events = 0 },
          ground (arith, h),
          ground (arith, h, unused),
        )
        | inr other ↦
            let (c, last, same) = sync.told x e (ground (arith, h)) in
            (c, ground (arith, last), same)
      ];
    }

    epoll_remove_handler-IsSynced :
        (a rc : ℕ) (looper looper' : Loop U)
        → epoll_remove_handler ctl a looper ≡ done (rc, looper')
        → IsSynced looper
        → IsSynced looper'
    unfolding epoll_remove_handler epoll_ctl set_entry
    epoll_remove_handler-IsSynced a rc looper looper' e sync =
        let (entry, at, rest) = >>=-eq-done (entry_at a looper) _ e in
        let found = entry_at-done a looper entry at in
        let addr = find_entry-addr a looper.entries entry found in
        IsSynced-done _ (rc, looper')
          (put_call-IsSynced looper entry (record entry { mask = 0; fd = negsuc 0 }) _ _ sync
            (rw addr found) refl refl)
          rest

    epoll_register_event-IsSynced :
        (a events rc : ℕ) (looper looper' : Loop U)
        → epoll_register_event ctl a events looper ≡ done (rc, looper')
        → IsSynced looper
        → IsSynced looper'
    unfolding epoll_register_event epoll_ctl set_entry
    epoll_register_event-IsSynced a events rc looper looper' e sync =
        let (entry, at, rest) = >>=-eq-done (entry_at a looper) _ e in
        let found = entry_at-done a looper entry at in
        let addr = find_entry-addr a looper.entries entry found in
        IsSynced-done _ (rc, looper')
          (put_call-IsSynced looper entry _ _ looper.removed_epoll_entrys sync (rw addr found) refl
            refl)
          rest

    epoll_cancel_event-IsSynced :
        (a events rc : ℕ) (looper looper' : Loop U)
        → epoll_cancel_event ctl a events looper ≡ done (rc, looper')
        → IsSynced looper
        → IsSynced looper'
    unfolding epoll_cancel_event epoll_ctl set_entry
    epoll_cancel_event-IsSynced a events rc looper looper' e sync =
        let (entry, at, rest) = >>=-eq-done (entry_at a looper) _ e in
        let found = entry_at-done a looper entry at in
        let addr = find_entry-addr a looper.entries entry found in
        IsSynced-done _ (rc, looper')
          (put_call-IsSynced looper entry _ _ looper.removed_epoll_entrys sync (rw addr found) refl
            refl)
          rest

    EpollStep-IsSynced :
        {looper looper' : Loop U} → EpollStep looper looper' → IsSynced looper → IsSynced looper'
    EpollStep-IsSynced (adds a handler fd looper unused) sync =
        epoll_add_handler-IsSynced a handler fd looper unused sync
    EpollStep-IsSynced (removes a rc looper looper' e) sync =
        epoll_remove_handler-IsSynced a rc looper looper' e sync
    EpollStep-IsSynced (registers a events rc looper looper' e) sync =
        epoll_register_event-IsSynced a events rc looper looper' e sync
    EpollStep-IsSynced (cancels a events rc looper looper' e) sync =
        epoll_cancel_event-IsSynced a events rc looper looper' e sync

    -- After any handlers have been added and removed and any events registered and cancelled on a
    -- looper that had no entries at first, whatever `epoll_ctl` answers, the last `epoll_ctl` call
    -- made for each allocated entry told the kernel exactly the events of the entry's mask.
    pub EpollReach-IsSynced :
        (looper looper' : Loop U)
        → looper.entries ≡ []
        → EpollReach looper looper'
        → IsSynced looper'
    unfolding find_entry
    EpollReach-IsSynced looper _ empty here = record {
      told = λ a e found. ground (arith, found, empty);
    }
    EpollReach-IsSynced looper _ empty (next reach step) =
        EpollStep-IsSynced step (EpollReach-IsSynced looper _ empty reach)
