-- ===== src/Man/SetStatus/Counted.antt =====
-- What SetServerStatus keeps: the counts agree with the statuses, and the hash values can be served
-- after the next UpdateHash.
use chmpx.Base.{
  ℕ, ◌≤◌, ◌<◌, ◌≡◌, refl, ap, ◌∙◌, Bool, true, false, not, ◌&&◌, ◌||◌, ◌==◌, ==_iff, Bool-cases,
  Option-cases, inl, inr, ◌⊎◌, List, [], ◌∷◌, arith, length, not_empty, ◌⇒◌, ⇒-elim, &&-eq-true,
  Option, none, some,
}
use chmpx.Status.{is_basehash, is_down, is_up}
use chmpx.Status.Change.{change_suspend_flag}
use chmpx.Ring.{Chmpx, Ring, invalid_hashval, hashtg_both, set_status, base_hash_count}
use chmpx.Ring.Members.{members, distinct, all_named}
use chmpx.Ring.Walk.{ring_is_operating, check_all_service_out_status}
use chmpx.IdMap.{is_server_mode}
use chmpx.Man.{Man, man_update_hash}
use chmpx.Man.Route.{IsConsistent, Routed, man_update_hash-Routed}
use chmpx.Man.Select.{find_server}
use chmpx.Man.SetStatus.{recount, store_server_status, set_server_status, set_self_status}
use chmpx.Man.SetStatus.Down.{all_named-same, check_all_service_out_status_lem}

-- The count of the base ring and the flag of a merge agree with the statuses of the list.
pub record Counted (m : Man) : Type 0 where
  pub base : m.bhash_count ≡ base_hash_count m.ring
  pub merging : m.is_operating ≡ ring_is_operating m.ring

-- Every node has a name and stands in the list once, and the array has room for all of them.
pub record Sized (r : Ring) : Type 0 where
  pub named : all_named r.store r.servers ≡ true
  pub single : distinct r.servers ≡ true
  pub room : length r.servers ≤ length r.base_arr
  pub small : length r.base_arr < invalid_hashval

-- Two rings with the same list, names and room.
pub record Alike (r r' : Ring) : Type 0 where
  pub servers : r'.servers ≡ r.servers
  pub has_name : (x : ℕ) → (r'.store x).has_name ≡ (r.store x).has_name
  pub base_arr : length r'.base_arr ≡ length r.base_arr

pub Alike-Sized : {r r' : Ring} → Alike r r' → Sized r → Sized r'
Alike-Sized {r} {r'} a s = record {
  named = rw a.servers (all_named-same r.store r'.store r.servers a.has_name ∙ s.named);
  single = rw a.servers s.single;
  room = rw (a.servers, a.base_arr) s.room;
  small = rw a.base_arr s.small;
}

length-members :
    (p : ℕ → Bool) (store : ℕ → Chmpx) (nodes : List ℕ)
    → length (members p store nodes) ≤ length nodes
length-members p store [] = omega arith
length-members p store (x ∷ xs) = ground (arith, length-members p store xs)

Sized-IsConsistent : (r : Ring) → Sized r → IsConsistent r
Sized-IsConsistent r s = record {
  named = s.named;
  single = s.single;
  room = omega (arith, length-members is_basehash r.store r.servers, s.room);
  small = s.small;
}

set_status-Alike : (now a status : ℕ) (r : Ring) → Alike r (set_status now a status r).1
unfolding set_status
set_status-Alike now a status r = record {
  servers = ground arith;
  has_name = λ x. ground (arith, ==_iff x a);
  base_arr = ground arith;
}

Alike-trans : {r s t : Ring} → Alike r s → Alike s t → Alike r t
Alike-trans p q = record {
  servers = q.servers ∙ p.servers;
  has_name = λ x. q.has_name x ∙ p.has_name x;
  base_arr = q.base_arr ∙ p.base_arr;
}

check_all-Alike :
    (now : ℕ) (r : Ring)
    → Sized r
    → not_empty r.servers ≡ true
    → ((check_all_service_out_status now r).0 ≡ true)
      × Alike r (check_all_service_out_status now r).1
check_all-Alike now r s some_node = elim (check_all_service_out_status_lem now r s.named) [
  | inl (_, kept) ↦
      rw kept (some_node, record { servers = refl; has_name = λ x. refl; base_arr = refl })
  | inr (_, d) ↦ (
    d.done,
    record { servers = d.servers; has_name = d.has_name; base_arr = ap length d.base_arr },
  )
]

-- How a change of a status ends: the counts are right and the list is as usable as before, or
-- nothing has changed.
pub record Settled (m : Man) (out : Bool × Man) : Type 0 where
  pub sized : Sized out.1.ring
  pub result : ((out.0 ≡ true) × Counted out.1) ⊎ (out ≡ (false, m))

recount-Counted : (r : Ring) (m : Man) → Counted (recount r m)
unfolding recount
recount-Counted r m = record { base = refl; merging = refl }

store_server_status-Settled :
    (now a status : ℕ) (need : Bool) (m : Man)
    → Sized m.ring
    → (need ⇒ not_empty m.ring.servers) ≡ true
    → Settled m (store_server_status now a status need m)
unfolding store_server_status
store_server_status-Settled now a status need m s some_node =
    let r1 = (set_status now a status m.ring).1 in
    let s1 : Sized r1 = Alike-Sized (set_status-Alike now a status m.ring) s in
    elim (Bool-cases (set_status now a status m.ring).0) [
      | inr e ↦ rw e (record { sized = s; result = inr refl })
      | inl e ↦ elim (Bool-cases (need && is_down status)) [
        | inl k ↦
            (let needed = &&-eq-true need (is_down status) k in
              let listed =
                ap not_empty (set_status-Alike now a status m.ring).servers
                ∙ ⇒-elim need (not_empty m.ring.servers) some_node needed.0 in
              let (checked, alike) = check_all-Alike now r1 s1 listed in
              rw (e, k, checked)
                (record { sized = Alike-Sized alike s1; result = inl (refl, recount-Counted _ m) }))
        | inr k ↦ rw (e, k) (record { sized = s1; result = inl (refl, recount-Counted _ m) })
      ]
    ]

find_server-some :
    (id : ℕ) (m : Man) (a : ℕ)
    → find_server id m ≡ some a
    → (true ⇒ not_empty m.ring.servers) ≡ true
unfolding find_server
find_server-some id m a k = listed m.ring.servers _ k
  where
    listed :
        (nodes : List ℕ) (o : ℕ → Option ℕ)
        → (let r : Option ℕ = elim nodes [ [] ↦ none | first ∷ rest ↦ o first ] in r) ≡ some a
        → (true ⇒ not_empty nodes) ≡ true
    listed [] o h = cc
    listed (first ∷ rest) o h = refl

refused : (m : Man) → Sized m.ring → Settled m (false, m)
refused m s = record { sized = s; result = inr refl }

-- When every node has a name, stands in the list once and has room in the array, SetServerStatus
-- keeps this; if it succeeds, the count of the base ring and the flag of a merge agree with the
-- statuses, and if it fails, nothing has changed.
pub set_server_status-Settled :
    (now chmpxid status : ℕ) (is_client_join : Bool) (m : Man)
    → Sized m.ring
    → Settled m (set_server_status now chmpxid status is_client_join m)
unfolding set_server_status
set_server_status-Settled now id status join m s =
    let stored =
      store_server_status-Settled now m.self (change_suspend_flag status (not join)) false m s
        refl in
    elim (Bool-cases
      (is_server_mode (m.ring.store m.self) && (m.ring.store m.self).chmpxid == id)) [
        | inl e ↦ elim (Bool-cases (is_down status && m.has_selfsock)) [
          | inl k ↦ rw (e, k) (refused m s)
          | inr k ↦ elim (Bool-cases (is_up status && not m.has_selfsock)) [
            | inl l ↦ rw (e, k, l) (refused m s)
            | inr l ↦ rw (e, k, l) stored
          ]
        ]
        | inr e ↦ elim (Option-cases (find_server id m)) [
          | inl k ↦ rw (e, k) (refused m s)
          | inr (a, k) ↦
              rw (e, k)
                (store_server_status-Settled now a status true m s (find_server-some id m a k))
        ]
      ]

-- The same for SetSelfStatus of a server; of a slave, no count changes.
pub set_self_status-Settled :
    (now status : ℕ) (is_client_join : Bool) (m : Man)
    → Sized m.ring
    → is_server_mode (m.ring.store m.self) ≡ true
    → Settled m (set_self_status now status is_client_join m)
unfolding set_self_status
set_self_status-Settled now status join m s server =
    let status' = change_suspend_flag status (not join) in
    let s1 = Alike-Sized (set_status-Alike now m.self status' m.ring) s in
    elim (Bool-cases (is_up status && not m.has_selfsock)) [
      | inl k ↦ rw (server, k) (refused m s)
      | inr k ↦ elim (Bool-cases (set_status now m.self status' m.ring).0) [
        | inr l ↦ rw (server, k, l) (refused m s)
        | inl l ↦
            rw (server, k, l) (record { sized = s1; result = inl (refl, recount-Counted _ m) })
      ]
    ]

pub Settled-Counted : (m : Man) (out : Bool × Man) → Settled m out → out.0 ≡ true → Counted out.1
Settled-Counted m out s h = elim s.result [ inl (e, c) ↦ c | inr e ↦ absurd (ground (arith, e, h)) ]

-- A successful SetServerStatus followed by an UpdateHash that the mode allows leaves a state in
-- which hash values are served, when before it every node has a name, stands in the list once and
-- has room in the array.
pub set_server_status-Routed :
    (now chmpxid status : ℕ)
    (is_client_join is_server is_allow_operating is_allow_slave_mode : Bool) (m : Man)
    → Sized m.ring
    → (set_server_status now chmpxid status is_client_join m).0 ≡ true
    → (is_allow_slave_mode || is_server) ≡ true
    → (is_allow_operating
        || not (set_server_status now chmpxid status is_client_join m).1.is_operating)
      ≡ true
    → Routed
        (man_update_hash is_server now hashtg_both is_allow_operating is_allow_slave_mode
          (set_server_status now chmpxid status is_client_join m).1).1
set_server_status-Routed now id status join server operating slave m s h a b =
    let settled = set_server_status-Settled now id status join m s in
    let m' = (set_server_status now id status join m).1 in
    (man_update_hash-Routed server now operating slave m' a b
      (Sized-IsConsistent m'.ring settled.sized) (Settled-Counted m _ settled h).base).1
