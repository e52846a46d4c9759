-- ===== src/Qos/Ack.antt =====
-- `nwc_qos_process_package`: what an acknowledgement does to the sent queue and the averages.
use imooc_sock_core_tech.Prelude.{
  ℕ, ◌≡◌, ◌≢◌, refl, false, none, some, List, [], ◌∷◌, ◌++◌, arith, has, has-append, Distinct,
}
use imooc_sock_core_tech.Qos.{
  DoubleOps, QosHdr, PackageEntry, Qos, get_pkg_entry, del_entry, process_package, update_rtt,
  rtt_sample,
}

abbrev pub addrs : List PackageEntry → List ℕ
addrs [] = []
addrs (e ∷ q) = e.addr ∷ addrs q

abbrev pub timestamps : List PackageEntry → List ℕ
timestamps [] = []
timestamps (e ∷ q) = e.message.timestamp ∷ timestamps q

pub get_pkg_entry-first :
    (xs ys : List PackageEntry) (e : PackageEntry)
    → has e.message.timestamp (timestamps xs) ≡ false
    → get_pkg_entry (xs ++ e ∷ ys) e.message.timestamp ≡ some e
unfolding get_pkg_entry
get_pkg_entry-first [] ys e out = ground arith
get_pkg_entry-first (x ∷ xs) ys e out = ground (arith, get_pkg_entry-first xs ys e)

pub get_pkg_entry-none :
    (q : List PackageEntry) (ts : ℕ) → has ts (timestamps q) ≡ false → get_pkg_entry q ts ≡ none
unfolding get_pkg_entry
get_pkg_entry-none [] ts out = refl
get_pkg_entry-none (x ∷ xs) ts out = ground (arith, get_pkg_entry-none xs ts)

pub addrs-append : (xs ys : List PackageEntry) → addrs (xs ++ ys) ≡ addrs xs ++ addrs ys
addrs-append [] ys = refl
addrs-append (x ∷ xs) ys = ground (arith, addrs-append xs ys)

pub del_entry-middle :
    (xs ys : List PackageEntry) (e : PackageEntry)
    → has e.addr (addrs xs) ≡ false
    → del_entry e.addr (xs ++ e ∷ ys) ≡ xs ++ ys
unfolding del_entry
del_entry-middle [] ys e out = ground arith
del_entry-middle (x ∷ xs) ys e out = ground (arith, del_entry-middle xs ys e)

pub Distinct-front : (xs ys : List ℕ) (e : ℕ) → Distinct (xs ++ e ∷ ys) → has e xs ≡ false
Distinct-front [] ys e d = refl
Distinct-front (x ∷ xs) ys e d =
    ground (arith, Distinct-front xs ys e d.1, has-append x xs (e ∷ ys))

module _ {D : Type 0} (F : DoubleOps D) where
  -- An acknowledgement of the first entry with its timestamp takes exactly that entry out of the
  -- sent queue, keeps the others in order, makes one step of the averages with the sample
  -- (reception time - acknowledged timestamp) - receiver delay, and changes no other field.
  -- Conditions: the addresses of the queue are distinct and the timestamp is not 0.
  pub process_package-acked :
      (q : Qos D) (pkg : QosHdr) (recv_ts : ℕ) (xs ys : List PackageEntry) (e : PackageEntry)
      → q.sent_queue ≡ xs ++ e ∷ ys
      → Distinct (addrs (xs ++ e ∷ ys))
      → has e.message.timestamp (timestamps xs) ≡ false
      → pkg.ack_timestamp ≡ e.message.timestamp
      → pkg.ack_timestamp ≢ 0
      → process_package F pkg recv_ts q
        ≡ record (update_rtt F (rtt_sample F pkg recv_ts) q) { sent_queue = xs ++ ys }
  unfolding process_package
  process_package-acked q pkg recv_ts xs ys e isq d out same nz = ground (
    arith,
    get_pkg_entry-first xs ys e out,
    del_entry-middle xs ys e,
    Distinct-front (addrs xs) (addrs ys) e.addr,
    addrs-append xs (e ∷ ys),
  )
