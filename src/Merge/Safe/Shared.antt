-- ===== src/Merge/Safe/Shared.antt =====
-- The operations on the shared memory keep its counts right.
use chmpx.Base.{
  ℕ, ◌≡◌, sym, ◌∙◌, Bool, true, false, not, ◌&&◌, ◌==◌, Bool-cases, Option-cases, inl, inr, arith,
}
use chmpx.Status.{is_down, is_up}
use chmpx.Status.Change.{change_suspend_flag}
use chmpx.Ring.{Ring, touch, set_hash, set_status, update_hash}
use chmpx.IdMap.{is_server_mode}
use chmpx.Man.{Man, man_update_hash}
use chmpx.Man.Select.{find_server}
use chmpx.Man.SetStatus.{recount, store_server_status, set_server_status, set_self_status}
use chmpx.Man.SetStatus.Counted.{
  Counted, Sized, Alike-Sized, Settled, set_server_status-Settled, set_self_status-Settled,
}
use chmpx.Merge.{man_set_self_hash, man_set_server_hash}
use chmpx.Merge.Safe.Steady.{
  Steady, touch-Steady, set_hash-Steady, update_hash-Steady, base_hash_count-Steady,
  ring_is_operating-Steady, set_status-mode, check_all-mode,
}

-- Every node has a name, stands in the list once and has room in the array; the count of the base
-- ring and the flag of a merge agree with the statuses; the own node is a server's.
pub record Consistent (m : Man) : Type 0 where
  pub sized : Sized m.ring
  pub counted : Counted m
  pub server : is_server_mode (m.ring.store m.self) ≡ true

-- A ring that differs in hash values and times only
with_ring :
    (m : Man) (r : Ring) → Steady m.ring r → Consistent m → Consistent (record m { ring = r })
with_ring m r p c = record {
  sized =
      Alike-Sized (record { servers = p.servers; has_name = p.has_name; base_arr = p.base_arr })
        c.sized;
  counted = record {
    base = c.counted.base ∙ sym (base_hash_count-Steady p);
    merging = c.counted.merging ∙ sym (ring_is_operating-Steady p);
  };
  server = same_mode m.self (p.mode m.self) c.server;
}
  where
    same_mode :
        (x : ℕ)
        → (r.store x).mode ≡ (m.ring.store x).mode
        → is_server_mode (m.ring.store x) ≡ true
        → is_server_mode (r.store x) ≡ true
    same_mode x e h = rw e h

pub touch-Consistent :
    (now a : ℕ) (m : Man) → Consistent m → Consistent (record m { ring = touch now a m.ring })
touch-Consistent now a m c = with_ring m (touch now a m.ring) (touch-Steady now a m.ring) c

pub self_hash-Consistent :
    (now base pending type : ℕ) (m : Man)
    → Consistent m
    → Consistent (man_set_self_hash now base pending type m).1
unfolding man_set_self_hash
self_hash-Consistent now base pending type m c =
    with_ring m (set_hash now m.self base pending type m.ring).1
      (set_hash-Steady now m.self base pending type m.ring) c

pub server_hash-Consistent :
    (now id base pending type : ℕ) (m : Man)
    → Consistent m
    → Consistent (man_set_server_hash now id base pending type m).1
unfolding man_set_server_hash
server_hash-Consistent now id base pending type m c =
    elim (Bool-cases
      (is_server_mode (m.ring.store m.self) && (m.ring.store m.self).chmpxid == id)) [
        | inl e ↦ rw e (self_hash-Consistent now base pending type m c)
        | inr e ↦ elim (Option-cases (find_server id m)) [
          | inl k ↦ rw (e, k) c
          | inr (a, k) ↦
              rw (e, k)
                (with_ring m (set_hash now a base pending type m.ring).1
                  (set_hash-Steady now a base pending type m.ring) c)
        ]
      ]

pub update_hash-Consistent :
    (server : Bool) (now type : ℕ) (operating slave : Bool) (m : Man)
    → Consistent m
    → Consistent (man_update_hash server now type operating slave m).1
unfolding man_update_hash
update_hash-Consistent server now type operating slave m c =
    let renewed =
      with_ring m (update_hash now type m.ring).1 (update_hash-Steady now type m.ring) c in
    elim (Bool-cases (not slave && not server)) [
      | inl e ↦ rw e c
      | inr e ↦ elim (Bool-cases (not operating && m.is_operating)) [
        | inl k ↦ rw (e, k) c
        | inr k ↦ rw (e, k) renewed
      ]
    ]

-- A change of a status that keeps the own node's mode
settled-Consistent :
    (m : Man) (out : Bool × Man)
    → Consistent m
    → Settled m out
    → is_server_mode (out.1.ring.store out.1.self) ≡ true
    → Consistent out.1
settled-Consistent m out c s server = record {
  sized = s.sized;
  counted = elim s.result [ inl (e, k) ↦ k | inr e ↦ kept e ];
  server = server;
}
  where
    kept : out ≡ (false, m) → Counted out.1
    kept e = rw e c.counted

store-server :
    (now a status : ℕ) (need : Bool) (m : Man)
    → is_server_mode (m.ring.store m.self) ≡ true
    → is_server_mode (
        (store_server_status now a status need m).1.ring.store
          (store_server_status now a status need m).1.self)
      ≡ true
unfolding store_server_status recount
store-server now a status need m h =
    let r1 = (set_status now a status m.ring).1 in
    ground (arith, set_status-mode now a status m.ring m.self, check_all-mode now r1 m.self)

pub set_self_status-Consistent :
    (now status : ℕ) (join : Bool) (m : Man)
    → Consistent m
    → Consistent (set_self_status now status join m).1
unfolding set_self_status recount
set_self_status-Consistent now status join m c =
    settled-Consistent m (set_self_status now status join m) c
      (set_self_status-Settled now status join m c.sized c.server)
      (rw c.server (
        ground (
          arith,
          set_status-mode now m.self (change_suspend_flag status (not join)) m.ring m.self,
        )))

set_server_status-server :
    (now id status : ℕ) (join : Bool) (m : Man)
    → is_server_mode (m.ring.store m.self) ≡ true
    → is_server_mode (
        (set_server_status now id status join m).1.ring.store
          (set_server_status now id status join m).1.self)
      ≡ true
unfolding set_server_status
set_server_status-server now id status join m h =
    elim (Bool-cases
      (is_server_mode (m.ring.store m.self) && (m.ring.store m.self).chmpxid == id)) [
        | inl e ↦ elim (Bool-cases (is_down status && m.has_selfsock)) [
          | inl k ↦ rw (e, k) h
          | inr k ↦ elim (Bool-cases (is_up status && not m.has_selfsock)) [
            | inl l ↦ rw (e, k, l) h
            | inr l ↦
                rw (e, k, l)
                  (store-server now m.self (change_suspend_flag status (not join)) false m h)
          ]
        ]
        | inr e ↦ elim (Option-cases (find_server id m)) [
          | inl k ↦ rw (e, k) h
          | inr (a, k) ↦ rw (e, k) (store-server now a status true m h)
        ]
      ]

pub set_server_status-Consistent :
    (now id status : ℕ) (join : Bool) (m : Man)
    → Consistent m
    → Consistent (set_server_status now id status join m).1
set_server_status-Consistent now id status join m c =
    settled-Consistent m (set_server_status now id status join m) c
      (set_server_status-Settled now id status join m c.sized)
      (set_server_status-server now id status join m c.server)
