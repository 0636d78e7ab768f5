-- ===== src/Man/Route.antt =====
-- The server that a hash value goes to, once the hash values have been updated.
use native.Mathlib.Nat.{zero-add}
use chmpx.Base.{
  ℕ, ◌%◌, ◌≤◌, ◌<◌, ◌≡◌, refl, sym, ap, ◌∙◌, Bool, true, not, ◌||◌, Option, some, List, length,
  get_elem?, get_elem?-lt, arith, not_empty, [], ◌∷◌, false, subst, if◌then◌else◌,
}
use chmpx.Status.{is_basehash}
use chmpx.Ring.{
  Ring, invalid_hashval, hashtg_both, is_hashtg_base, update_hash, update_hash_from,
  base_hash_count,
}
use chmpx.Ring.Members.{Same, members, distinct, all_named, members-Same, count_status-length}
use chmpx.Ring.Hash.{Numbered, update_hash_from-Numbered}
use chmpx.Man.{Man, slot, server_at, get_server_chmpxid_by_hash, man_update_hash}

-- The servers of the base ring, in the order of the list.
abbrev pub base_servers : Ring → List ℕ
base_servers r = members is_basehash r.store r.servers

-- The state in which hash values are served: the count and the array agree with the statuses.
pub record Routed (m : Man) : Type 0 where
  pub count : m.bhash_count ≡ length (base_servers m.ring)
  pub small : m.bhash_count ≤ invalid_hashval
  pub entry :
      (i a : ℕ)
      → get_elem? (base_servers m.ring) i ≡ some a
      → (slot m.ring.base_arr i ≡ some a) × ((m.ring.store a).base_hash ≡ i)

-- The list is consistent: every node has a name and stands in it once, and the array has room.
pub record IsConsistent (r : Ring) : Type 0 where
  pub named : all_named r.store r.servers ≡ true
  pub single : distinct r.servers ≡ true
  pub room : length (base_servers r) ≤ length r.base_arr
  pub small : length r.base_arr < invalid_hashval

base_servers-Same : {r r' : Ring} → Same r r' → base_servers r' ≡ base_servers r
base_servers-Same {r} {r'} same =
    ap (members is_basehash r'.store) same.servers ∙ members-Same is_basehash same r.servers

-- The test of the list decides over the success, and the ring is the loop's in any case.
guarded :
    (P : Ring → Type 0) (f : List ℕ → Bool × Ring) (r : Ring) (nodes : List ℕ)
    → f [] ≡ (true, r)
    → ((f nodes).0 ≡ true) × P (f nodes).1
    → ((if not_empty nodes then f nodes else (false, r)).0 ≡ not_empty nodes)
      × P (if not_empty nodes then f nodes else (false, r)).1
guarded P f r [] e h = (refl, subst (λ out. P out.1) e h.1)
guarded P f r (a ∷ rest) e h = h

-- What UpdateHash leaves behind in a consistent list.
update_hash-Numbered :
    (now : ℕ) (r : Ring)
    → IsConsistent r
    → ((update_hash now hashtg_both r).0 ≡ not_empty r.servers)
      × Numbered r.servers 0 r (update_hash now hashtg_both r).1
unfolding update_hash update_hash_from is_hashtg_base
update_hash-Numbered now r c =
    guarded (Numbered r.servers 0 r) (λ nodes. update_hash_from now hashtg_both nodes 0 0 r) r
      r.servers refl
      (update_hash_from-Numbered now hashtg_both refl r.servers 0 0 r c.named c.single
        (omega (arith, c.room)) c.small)

slot_of : (arr : List (Option ℕ)) (i a : ℕ) → get_elem? arr i ≡ some (some a) → slot arr i ≡ some a
slot_of arr i a e = rw (e, slot)

Numbered-Routed :
    (m : Man) (r' : Ring)
    → IsConsistent m.ring
    → m.bhash_count ≡ base_hash_count m.ring
    → Numbered m.ring.servers 0 m.ring r'
    → Routed (record m { ring = r' })
unfolding base_hash_count
Numbered-Routed m r' c e n =
    let counted = count_status-length is_basehash m.ring.store m.ring.servers in
    let same = base_servers-Same n.same in
    record {
      count = e ∙ counted ∙ ap length (sym same);
      small = omega (arith, e, counted, c.room, c.small);
      entry = λ i a h.
          let found = n.entry i a (rw same at h) in
          (slot_of r'.base_arr i a (rw zero-add at found.0), found.1 ∙ zero-add i);
    }

-- When every node of the list has a name and stands in it once, the array has room for the servers
-- of the base ring and is shorter than the invalid hash value, the mode and the flag of a merge allow
-- the update, and the count of the base ring agrees with the statuses, then updating both kinds of
-- hash values succeeds exactly if the list has a node, changes no status, no id and no place in the
-- list, and leads to the state in which hash values are served.
pub man_update_hash-Routed :
    (is_server_mode : Bool) (now : ℕ) (is_allow_operating is_allow_slave_mode : Bool) (m : Man)
    → (is_allow_slave_mode || is_server_mode) ≡ true
    → (is_allow_operating || not m.is_operating) ≡ true
    → IsConsistent m.ring
    → m.bhash_count ≡ base_hash_count m.ring
    → let out =
        man_update_hash is_server_mode now hashtg_both is_allow_operating is_allow_slave_mode m in
      (out.0 ≡ not_empty m.ring.servers) × Routed out.1 × Same m.ring out.1.ring
unfolding man_update_hash
man_update_hash-Routed is_server_mode now is_allow_operating is_allow_slave_mode m h k c e =
    let (done, n) = update_hash-Numbered now m.ring c in
    ground (arith, done, Numbered-Routed m _ c e n, n.same)

-- A number below the count is the number of a server.
pub server_numbered :
    (m : Man) (t : ℕ)
    → Routed m
    → t < m.bhash_count
    → (a : ℕ) × (get_elem? (base_servers m.ring) t ≡ some a)
server_numbered m t v h = get_elem?-lt (base_servers m.ring) t (omega (arith, v.count))

-- The array yields the server with a number.
pub server_at_lem :
    (m : Man) (t a : ℕ)
    → Routed m
    → get_elem? (base_servers m.ring) t ≡ some a
    → server_at true t m.ring ≡ some a
unfolding server_at
server_at_lem m t a v e = rw ((v.entry t a e).0, server_at)

-- When hash values are served and the base ring is not empty, the message goes to one server of the
-- base ring: the one whose number is the hash value modulo the number of these servers; it is
-- remembered as the last one used, and nothing else changes.
pub get_server_chmpxid_by_hash_lem :
    (hash : ℕ) (m : Man)
    → Routed m
    → 0 < m.bhash_count
    → (a : ℕ) × (get_elem? (base_servers m.ring) (hash % length (base_servers m.ring)) ≡ some a)
      × (get_server_chmpxid_by_hash hash m
          ≡ ((m.ring.store a).chmpxid, record m { last_chmpxid = (m.ring.store a).chmpxid }))
unfolding get_server_chmpxid_by_hash
get_server_chmpxid_by_hash_lem hash m v pos =
    let (a, e) = server_numbered m (hash % m.bhash_count) v (omega arith) in
    (a, (route a e).0, (route a e).1)
  where
    route :
        (a : ℕ)
        → get_elem? (base_servers m.ring) (hash % m.bhash_count) ≡ some a
        → (get_elem? (base_servers m.ring) (hash % length (base_servers m.ring)) ≡ some a)
          × (get_server_chmpxid_by_hash hash m
              ≡ ((m.ring.store a).chmpxid, record m { last_chmpxid = (m.ring.store a).chmpxid }))
    route a e = (rw (← v.count) e, ground (arith, server_at_lem m (hash % m.bhash_count) a v e))
