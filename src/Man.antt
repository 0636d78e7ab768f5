-- ===== src/Man.antt =====
-- lib/chmstructure.tcc, chmpxman_lap: which servers a hash value goes to. A message for a hash goes
-- to the server whose base hash is the value modulo the number of servers in the base ring, and to
-- the next `replica_count` servers after it; while servers merge, also to those of the pending ring.
pub mod Route
pub mod Contains
pub mod Replicas
pub mod Complete
pub mod Servers
pub mod Select
pub mod SetStatus
pub mod Sample
mod Tests
use chmpx.Base.{
  ℕ, zero, suc, ◌+◌, ◌%◌, Bool, true, false, not, ◌&&◌, ◌||◌, ◌==◌, if◌then◌else◌, Option, none,
  some, List, [], ◌∷◌, ◌++◌, any, get_elem?, not_empty,
}
use chmpx.IdMap.{Buckets}
use chmpx.Status.{is_down, is_suspend}
use chmpx.Ring.{
  Chmpx, Ring, invalid_chmpxid, invalid_hashval, find_by_hash, pending_hash_count, update_hash,
}

-- CHMPXMAN: the members that the selection of servers reads and writes. `self` is the address of the
-- own node, and `has_selfsock` tells whether its self socket is open.
pub record Man : Type 0 where
  pub ring : Ring
  pub chmpxid_map : Buckets
  pub self : ℕ
  pub has_selfsock : Bool
  pub replica_count : ℕ
  pub bhash_count : ℕ
  pub is_operating : Bool
  pub last_chmpxid : ℕ

-- abs_base_arr[i]; an index out of range, which the code does not check, reads as a null pointer.
abbrev pub slot : List (Option ℕ) → ℕ → Option ℕ
slot arr i = elim (get_elem? arr i) [ none ↦ none | some entry ↦ entry ]

-- The array's server, or else the one that the linear search finds.
unfoldable pub server_at : Bool → ℕ → Ring → Option ℕ
server_at is_base target r = elim (slot (if is_base then r.base_arr else r.pend_arr) target) [
  | some a ↦ some a
  | none ↦ find_by_hash target is_base r
]

-- chmpxman_lap::GetServerChmpxIdByHash
unfoldable pub get_server_chmpxid_by_hash : ℕ → Man → ℕ × Man
unfolding server_at
get_server_chmpxid_by_hash hash m =
    if m.bhash_count == 0
    then (invalid_chmpxid, m)
    else elim (server_at true (hash % m.bhash_count) m.ring) [
      | none ↦ (invalid_chmpxid, m)
      | some a ↦ ((m.ring.store a).chmpxid, record m { last_chmpxid = (m.ring.store a).chmpxid })
    ]

-- What GetServerChmpxIdAndBaseHashByHashs collects: the two lists, and the last server of the base
-- loop. The maps against duplicates hold what the lists hold.
pub record Found : Type 0 where
  pub chmpxids : List ℕ
  pub hashes : List ℕ
  pub last : ℕ

-- The three flags of the call
pub record Filter : Type 0 where
  pub with_pending : Bool
  pub without_down : Bool
  pub without_suspend : Bool

unfoldable pub contains : ℕ → List ℕ → Bool
contains x = any (λ y. y == x)

unfoldable pub push_new : ℕ → List ℕ → List ℕ
unfolding contains
push_new x xs = if contains x xs then xs else xs ++ x ∷ []

-- The hash value of a CHMPX in the ring of a loop
abbrev pub hash_of : Bool → Chmpx → ℕ
hash_of is_base c = if is_base then c.base_hash else c.pending_hash

-- The checks of a round, and the registration of a server that passes them
unfoldable pub passes : Bool → Filter → Chmpx → Bool
passes is_base f c =
    not (c.chmpxid == invalid_chmpxid)
    && c.has_name
    && not (hash_of is_base c == invalid_hashval)
    && not (f.without_down && is_down c.status)
    && not (f.without_suspend && is_suspend c.status)

unfoldable pub visit : Bool → Filter → Option ℕ → Ring → Found → Found
unfolding passes push_new
visit is_base f none r found = found
visit is_base f (some a) r found =
    if passes is_base f (r.store a)
    then record {
      chmpxids = push_new (r.store a).chmpxid found.chmpxids;
      hashes = push_new (hash_of is_base (r.store a)) found.hashes;
      last = (r.store a).chmpxid;
    }
    else found

-- The loop over `left` more replicas from the count `cnt` on
unfoldable pub collect : Bool → Filter → ℕ → ℕ → ℕ → ℕ → Ring → Found → Found
collect is_base f start max zero cnt r found = found
collect is_base f start max (suc left) cnt r found =
    collect is_base f start max left (suc cnt) r
      (visit is_base f (server_at is_base ((start + cnt) % max) r) r found)

abbrev pub nothing_found : Found
nothing_found = record { chmpxids = []; hashes = []; last = invalid_chmpxid }

-- The part for the pending hash, which runs while servers merge
unfoldable pub collect_pending : ℕ → Filter → Man → Found → Found
unfolding collect pending_hash_count
collect_pending hash f m found =
    let max = pending_hash_count m.ring in
    if f.with_pending && m.is_operating && not (max == 0)
    then collect false f (hash % max) max (suc m.replica_count) 0 m.ring found
    else found

-- chmpxman_lap::GetServerChmpxIdAndBaseHashByHashs: the returned truth value, the two lists, and the
-- new state. The first test returns without clearing the lists, which are taken as empty.
unfoldable pub get_servers_by_hash : ℕ → Filter → Man → Bool × List ℕ × List ℕ × Man
unfolding collect collect_pending
get_servers_by_hash hash f m =
    if m.bhash_count == 0
    then (false, [], [], m)
    else (let n = m.bhash_count in
        let base = collect true f (hash % n) n (suc m.replica_count) 0 m.ring nothing_found in
        let all_found = collect_pending hash f m base in
        let m' =
          if base.last == invalid_chmpxid then m else record m { last_chmpxid = base.last } in
        (not_empty all_found.chmpxids, all_found.chmpxids, all_found.hashes, m'))

-- chmpxman_lap::UpdateHash
unfoldable pub man_update_hash : Bool → ℕ → ℕ → Bool → Bool → Man → Bool × Man
man_update_hash is_server_mode now type is_allow_operating is_allow_slave_mode m =
    if not is_allow_slave_mode && not is_server_mode
    then (false, m)
    else (if not is_allow_operating && m.is_operating
        then (false, m)
        else (let (done, r) = update_hash now type m.ring in (done, record m { ring = r })))
