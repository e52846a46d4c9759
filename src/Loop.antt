-- ===== src/Loop.antt =====
-- The event loop's state: `struct nwc_looper`, `struct nwc_worker` (nwc_looper.h), `struct
-- epoll_entry` and `struct nwc_epoll_looper` (nwc_epoll_looper.h). The intrusive lists stand as
-- sequences, in the sense of ListHead.Ring. The objects that the callbacks work on are `user`.
pub mod Workers
pub mod Epoll
pub mod Run
pub mod Api
pub mod Links
pub mod Dispatch
pub mod Registration
pub mod Events
pub mod Ending
use imooc_sock_core_tech.Prelude.{ℕ, List}
use imooc_sock_core_tech.Prelude.Int.{ℤ}

-- `worker_do` is a function's address and 0 is NULL; so is `userdata`.
pub record Worker : Type 0 where
  pub addr : ℕ
  pub userdata : ℕ
  pub worker_do : ℕ

-- `eh` is the address of the handler.
pub record EpollEntry : Type 0 where
  pub addr : ℕ
  pub mask : ℕ
  pub fd : ℤ
  pub eh : ℕ

pub data CtlOp : Type 0 where
  ctl_add ctl_mod ctl_del : CtlOp

-- One call of `epoll_ctl`.
pub record CtlCall : Type 0 where
  pub op : CtlOp
  pub entry : ℕ
  pub fd : ℤ
  pub events : ℕ

-- `entries` are the allocated entries and `removed_epoll_entrys` the addresses of the removed
-- ones, which are freed at the end of a round. `ctl_calls` are the calls so far, the last first.
pub record Loop (U : Type 0) : Type 0 where
  pub worker_hdr : List Worker
  pub removed_worker_hdr : List Worker
  pub epfd : ℤ
  pub exit : ℕ
  pub timeout_interval : ℤ
  pub entries : List EpollEntry
  pub removed_epoll_entrys : List ℕ
  pub ctl_calls : List CtlCall
  pub user : U

-- The answer of `epoll_ctl` to a call after the calls before it: 0, or the error number.
abbrev pub EpollCtl : Type 0
EpollCtl = List CtlCall → CtlCall → ℕ
