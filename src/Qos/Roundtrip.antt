-- ===== src/Qos/Roundtrip.antt =====
-- A package from its creation to the arrival of its acknowledgement (nwc_qos_protocol.c, as
-- nwc_connection.c uses it on both sides).
use imooc_sock_core_tech.Prelude.{
  ℕ, ◌≡◌, ◌≢◌, refl, false, List, [], ◌∷◌, ◌++◌, arith, append-nil, has, Distinct, Distinct-snoc,
  ==-refl, ap, ◌∙◌,
}
use imooc_sock_core_tech.Qos.{
  DoubleOps, PackageEntry, Qos, create_package, create_ack_package, stamp, process_package,
}
use imooc_sock_core_tech.Qos.Ack.{addrs, addrs-append, timestamps, process_package-acked}

stamp-last :
    (addr ts : ℕ) (q : List PackageEntry) (e : PackageEntry)
    → has addr (addrs q) ≡ false
    → e.addr ≡ addr
    → stamp addr ts (q ++ e ∷ [])
      ≡ q ++ record e { message = record (e.message) { timestamp = ts } } ∷ []
unfolding stamp
stamp-last addr ts [] e out named = ground (arith, ==-refl addr)
stamp-last addr ts (x ∷ q) e out named = ground (arith, stamp-last addr ts q e)

module _ {D : Type 0} (F : DoubleOps D) where
  -- The client makes a package and stamps it `ts`.
  abbrev pub sent_at : (addr ts : ℕ) (junk : List ℕ) (pkglen : ℕ) → Qos D → Qos D
  sent_at addr ts junk pkglen q =
      let made = create_package F addr 0 junk pkglen q in
      record (made.1) { sent_queue = stamp addr ts (made.1).sent_queue }

  -- A package that is created at a fresh address, stamped with a timestamp other than 0 which no
  -- waiting package has, and acknowledged by the package that the receiver makes for that
  -- timestamp, with whatever delay and stamp the receiver writes into it, leaves the sent queue as
  -- it was before, where the queue's addresses are distinct.
  pub acknowledged_package_leaves :
      (addr ts delay reply_ts recv_ts pkglen : ℕ) (junk : List ℕ) (q : Qos D)
      → Distinct (addrs q.sent_queue)
      → has addr (addrs q.sent_queue) ≡ false
      → has ts (timestamps q.sent_queue) ≡ false
      → ts ≢ 0
      → (process_package F
          (record (create_ack_package F 0 ts) { recv_delay = delay; timestamp = reply_ts })
          recv_ts
          (sent_at addr ts junk pkglen q)).sent_queue
        ≡ q.sent_queue
  unfolding create_package create_ack_package
  acknowledged_package_leaves addr ts delay reply_ts recv_ts pkglen junk q d fresh unused nz =
      let reply = record (create_ack_package F 0 ts) { recv_delay = delay; timestamp = reply_ts } in
      let made = create_package F addr 0 junk pkglen q in
      let e : PackageEntry = record { addr = addr; message = made.0; flag = 0 } in
      let e' : PackageEntry = record e { message = record (e.message) { timestamp = ts } } in
      let last = stamp-last addr ts q.sent_queue e fresh refl in
      ap (λ (x : Qos D). x.sent_queue)
        (process_package-acked F (sent_at addr ts junk pkglen q) reply recv_ts q.sent_queue [] e'
          last
          (rw (addrs-append q.sent_queue (e' ∷ []))
            (Distinct-snoc (addrs q.sent_queue) addr d fresh))
          unused refl nz)
      ∙ append-nil q.sent_queue
