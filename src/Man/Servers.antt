-- ===== src/Man/Servers.antt =====
-- The answers of GetServerChmpxIdAndBaseHashByHashs while no servers merge.
use native.Mathlib.Nat.{mod-mod, add-zero}
use chmpx.Base.{
  ℕ, suc, ◌+◌, ◌%◌, ◌≤◌, ◌<◌, ◌≡◌, refl, sym, ap, ◌∙◌, true, false, ◌&&◌, some, List, [], ◌∷◌,
  not_empty, length, get_elem?, arith,
}
use chmpx.Ring.Members.{distinct}
use chmpx.Man.{
  Man, Filter, contains, passes, collect_pending, nothing_found, get_servers_by_hash,
  get_server_chmpxid_by_hash,
}
use chmpx.Man.Route.{base_servers, Routed, server_at_lem}
use chmpx.Man.Replicas.{collected, collected-Sound, length-collect}
use chmpx.Man.Complete.{AllUsable, collected-Filled}

-- Without a merge, the pending part adds nothing.
answer_is_collected :
    (hash : ℕ) (f : Filter) (m : Man)
    → 0 < m.bhash_count
    → (f.with_pending && m.is_operating) ≡ false
    → ((get_servers_by_hash hash f m).0 ≡ not_empty (collected f hash m).chmpxids)
      × ((get_servers_by_hash hash f m).1 ≡ (collected f hash m).chmpxids)
      × ((get_servers_by_hash hash f m).2 ≡ (collected f hash m).hashes)
unfolding get_servers_by_hash collect_pending
answer_is_collected hash f m pos h = ground arith

-- When hash values are served and no pending ring is asked, the two lists of servers for a hash value
-- hold no id and no hash value twice, at most one server more than there are replicas, and only
-- servers of the base ring that pass the call's checks; the call succeeds exactly when it found one.
pub get_servers_by_hash_sound :
    (hash : ℕ) (f : Filter) (m : Man)
    → Routed m
    → 0 < m.bhash_count
    → (f.with_pending && m.is_operating) ≡ false
    → let out = get_servers_by_hash hash f m in
      (out.0 ≡ not_empty out.1)
      × (distinct out.1 ≡ true)
      × (distinct out.2 ≡ true)
      × (length out.1 ≤ suc m.replica_count)
      × ((x : ℕ)
          → contains x out.1 ≡ true
          → (t : ℕ) × (a : ℕ) × (get_elem? (base_servers m.ring) t ≡ some a)
            × ((m.ring.store a).chmpxid ≡ x)
            × (passes true f (m.ring.store a) ≡ true))
get_servers_by_hash_sound hash f m v pos h =
    let (done, ids, values) = answer_is_collected hash f m pos h in
    let s = collected-Sound f hash m v pos in
    let n = m.bhash_count in
    let few : length (collected f hash m).chmpxids ≤ suc m.replica_count =
      omega (arith, length-collect f (hash % n) n (suc m.replica_count) 0 m.ring nothing_found) in
    rw (done, ids, values) (refl, s.ids, s.hash_values, few, s.origin)

not_empty_of_length : (xs : List ℕ) (n : ℕ) → length xs ≡ suc n → not_empty xs ≡ true
not_empty_of_length [] n e = absurd (omega arith)
not_empty_of_length (x ∷ xs) n e = refl

main_server :
    (hash : ℕ) (m : Man) (a : ℕ)
    → Routed m
    → 0 < m.bhash_count
    → get_elem? (base_servers m.ring) (hash % m.bhash_count) ≡ some a
    → (get_server_chmpxid_by_hash hash m).0 ≡ (m.ring.store a).chmpxid
unfolding get_server_chmpxid_by_hash
main_server hash m a v pos e = ground (arith, server_at_lem m (hash % m.bhash_count) a v e)

-- When hash values are served, no pending ring is asked, all servers of the base ring pass the
-- call's checks, their ids differ and there are more of them than replicas, a hash value goes to
-- exactly one server more than there are replicas: the server that GetServerChmpxIdByHash names,
-- and the next ones around the ring.
pub get_servers_by_hash_complete :
    (hash : ℕ) (f : Filter) (m : Man)
    → Routed m
    → AllUsable f m.ring
    → m.replica_count < m.bhash_count
    → (f.with_pending && m.is_operating) ≡ false
    → let out = get_servers_by_hash hash f m in
      (out.0 ≡ true)
      × (length out.1 ≡ suc m.replica_count)
      × (get_elem? out.1 0 ≡ some ((get_server_chmpxid_by_hash hash m).0))
      × ((k : ℕ)
          → k < suc m.replica_count
          → (a : ℕ) × (get_elem? (base_servers m.ring) ((hash % m.bhash_count + k) % m.bhash_count)
              ≡ some a)
            × (get_elem? out.1 k ≡ some ((m.ring.store a).chmpxid)))
get_servers_by_hash_complete hash f m v u small h =
    let (done, ids, values) = answer_is_collected hash f m (omega arith) h in
    let filled = collected-Filled f hash m v u small in
    let (a, e, first) = filled.entry 0 (omega arith) in
    let main =
      main_server hash m a v (omega arith)
        (rw (add-zero (hash % m.bhash_count), mod-mod hash m.bhash_count) at e) in
    rw (done, ids)
      (not_empty_of_length _ _ filled.size, filled.size, first ∙ ap some (sym main), filled.entry)
