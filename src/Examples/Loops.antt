-- ===== src/Examples/Loops.antt =====
-- The event loop: workers, their links, and the entries of epoll.
use imooc_sock_core_tech.Prelude.{
  ℕ, ◌≡◌, refl, none, some, List, [], ◌∷◌, arith, ◌==◌, if◌then◌else◌,
}
use imooc_sock_core_tech.Prelude.Int.{pos, negsuc}
use imooc_sock_core_tech.Outcome.{Outcome, done}
use imooc_sock_core_tech.ListHead.{Links, list_add_tail, list_del}
use imooc_sock_core_tech.Loop.{Worker, EpollEntry, Loop, ctl_add, ctl_mod, ctl_del}
use imooc_sock_core_tech.Loop.Workers.{cancel_worker}
use imooc_sock_core_tech.Loop.Epoll.{
  find_entry, epoll_add_handler, epoll_remove_handler, epoll_register_event, epoll_stop,
}
use imooc_sock_core_tech.Loop.Run.{handle_all, clean_up}
use imooc_sock_core_tech.Loop.Links.{Holds, cancel_worker-Holds}
use imooc_sock_core_tech.Loop.Registration.{
  IsSynced, here, next, adds, registers, EpollReach-IsSynced,
}
use imooc_sock_core_tech.Loop.Events.{clean_up-frees, epoll_remove_handler-skips}
use imooc_sock_core_tech.Examples.Data.{always_ok, idle}

abbrev first_worker : Worker
first_worker = record { addr = 7; userdata = 100; worker_do = 1 }

abbrev second_worker : Worker
second_worker = record { addr = 8; userdata = 200; worker_do = 2 }

abbrev two_workers : Loop (List ℕ)
two_workers = record (idle []) { worker_hdr = first_worker ∷ second_worker ∷ [] }

-- The heads 1 and 2, and the nodes 7 and 8 behind 1.
abbrev links : Links
links = record {
  next = λ p. if p == 1 then 7 else if p == 7 then 8 else if p == 8 then 1 else 2;
  prev = λ p. if p == 1 then 8 else if p == 7 then 1 else if p == 8 then 7 else 2;
}

two_workers-Holds : Holds 1 2 links two_workers
two_workers-Holds = record {
  workers = record {
    seg = (refl, refl, (refl, refl, (refl, refl)));
    distinct = (refl, (refl, (refl, tt)));
  };
  cancelled = record { seg = (refl, refl); distinct = (refl, tt) };
  apart = λ b i. ground arith;
}

cancel_worker-Holds_example :
    Holds 1 2 (list_add_tail 7 2 (list_del 7 links)) (cancel_worker 7 two_workers)
cancel_worker-Holds_example =
    cancel_worker-Holds 1 2 links two_workers [] (second_worker ∷ []) first_worker two_workers-Holds
      refl

abbrev removed_entry : EpollEntry
removed_entry = record { addr = 30; mask = 0; fd = negsuc 0; eh = 20 }

abbrev open_entry : EpollEntry
open_entry = record { addr = 30; mask = 1; fd = pos 4; eh = 20 }

abbrev one_entry : Loop (List ℕ)
one_entry = record (idle []) { entries = open_entry ∷ [] }

-- The loop after the removal of its entry.
abbrev no_entry : Loop (List ℕ)
no_entry = record (idle []) {
  entries = removed_entry ∷ [];
  removed_epoll_entrys = 30 ∷ [];
  ctl_calls = record { op = ctl_del; entry = 30; fd = pos 4; events = 0 } ∷ [];
}

remove_30 : epoll_remove_handler always_ok 30 one_entry ≡ done (0, no_entry)
unfolding epoll_remove_handler
remove_30 = refl

epoll_remove_handler-skips_example :
    handle_all
      (λ h l. done (record l { user = h ∷ l.user }))
      (λ h l. done l)
      (record { ptr = 30; events = 1 } ∷ [])
      no_entry
    ≡ done no_entry
epoll_remove_handler-skips_example =
    epoll_remove_handler-skips (λ h l. done (record l { user = h ∷ l.user })) (λ h l. done l)
      always_ok 30 0 (record { ptr = 30; events = 1 } ∷ []) one_entry no_entry remove_30 (refl, tt)

clean_up-frees_example :
    (find_entry 30 (clean_up no_entry).entries ≡ none)
    × ((clean_up no_entry).removed_epoll_entrys ≡ [])
    × ((clean_up no_entry).removed_worker_hdr ≡ [])
clean_up-frees_example = clean_up-frees 30 no_entry (refl, tt)

-- A handler is added and waits for data.
abbrev registered : Loop (List ℕ)
registered = record one_entry {
  ctl_calls =
      record { op = ctl_mod; entry = 30; fd = pos 4; events = 1 }
      ∷ record { op = ctl_add; entry = 30; fd = pos 4; events = 0 }
      ∷ [];
}

register_30 :
    epoll_register_event always_ok 30 1
      (epoll_add_handler always_ok (some 30) 20 (pos 4) (idle [])).1
    ≡ done (0, registered)
unfolding epoll_register_event epoll_add_handler
register_30 = refl

EpollReach-IsSynced_example : IsSynced registered
EpollReach-IsSynced_example = EpollReach-IsSynced always_ok (idle []) registered refl (
    next (next here (adds 30 20 (pos 4) (idle []) (unfold find_entry in refl)))
      (registers 30 1 0 _ registered register_30))

-- A handler that stops the loop.
abbrev stop_loop : (handler : ℕ) → Loop (List ℕ) → Outcome (Loop (List ℕ))
stop_loop handler looper = done (epoll_stop looper).1
