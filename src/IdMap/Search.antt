-- ===== src/IdMap/Search.antt =====
-- What the hash table of ids promises: what was saved is found, and nothing else.
use chmpx.Base.{
  ℕ, ◌≡◌, ◌≢◌, refl, Bool, true, false, not, ◌&&◌, ◌||◌, ◌==◌, ==_iff, if◌then◌else◌, none, some,
  List, [], ◌∷◌, ◌++◌, arith, Bool-cases, inl, inr,
}
use chmpx.Ring.{Chmpx, invalid_chmpxid}
use chmpx.Ring.Members.{not_in, distinct}
use chmpx.IdMap.{
  Buckets, bucket, is_in, save_chmpx_id_map, unlink, retrieve_chmpx_id_map, same_mode, search_chain,
  search_chmpxid,
}

-- The node is the one that is looked for.
abbrev pub matches : (ℕ → Chmpx) → Bool → ℕ → ℕ → Bool
matches store is_server chmpxid a = same_mode is_server (store a) && (store a).chmpxid == chmpxid

search_chain-append :
    (store : ℕ → Chmpx) (is_server : Bool) (chmpxid a : ℕ) (chain : List ℕ)
    → search_chain store is_server chmpxid (chain ++ a ∷ [])
      ≡ elim (search_chain store is_server chmpxid chain) [
        | some b ↦ some b
        | none ↦ if matches store is_server chmpxid a then some a else none
      ]
unfolding search_chain
search_chain-append store s id a [] = refl
search_chain-append store s id a (x ∷ xs) = ground (arith, search_chain-append store s id a xs)

-- Saving a node with a valid id that its bucket does not hold yet changes one thing: a search that
-- found nothing before finds the node, if it has the mode and the id that the search is for.
pub search_chmpxid-save_chmpx_id_map :
    (store : ℕ → Chmpx) (a : ℕ) (map : Buckets) (is_server : Bool) (chmpxid : ℕ)
    → (store a).chmpxid ≢ invalid_chmpxid
    → is_in a (map (bucket (store a).chmpxid)) ≡ false
    → search_chmpxid store is_server chmpxid (save_chmpx_id_map store a map)
      ≡ elim (search_chmpxid store is_server chmpxid map) [
        | some b ↦ some b
        | none ↦ if matches store is_server chmpxid a then some a else none
      ]
unfolding search_chmpxid save_chmpx_id_map
search_chmpxid-save_chmpx_id_map store a map s id valid new = ground (
  arith,
  search_chain-append store s id a (map (bucket id)),
  ==_iff (store a).chmpxid id,
  ==_iff (bucket (store a).chmpxid) (bucket id),
  ==_iff (store a).chmpxid invalid_chmpxid,
  ==_iff id invalid_chmpxid,
)

unlink-append :
    (a : ℕ) (chain : List ℕ) → is_in a chain ≡ false → unlink a (chain ++ a ∷ []) ≡ chain
unfolding unlink
unlink-append a [] h = ground (arith, ==_iff a a)
unlink-append a (x ∷ xs) h = ground (arith, unlink-append a xs)

-- Saving a new node and retrieving it again leaves every bucket as it was.
pub retrieve_chmpx_id_map-save_chmpx_id_map :
    (store : ℕ → Chmpx) (a : ℕ) (map : Buckets) (k : ℕ)
    → is_in a (map (bucket (store a).chmpxid)) ≡ false
    → retrieve_chmpx_id_map store a (save_chmpx_id_map store a map) k ≡ map k
unfolding retrieve_chmpx_id_map save_chmpx_id_map
retrieve_chmpx_id_map-save_chmpx_id_map store a map k new = ground (
  arith,
  unlink-append a (map (bucket (store a).chmpxid)),
  ==_iff (bucket (store a).chmpxid) k,
  ==_iff (bucket (store a).chmpxid) (bucket (store a).chmpxid),
)

-- No node of the chain but one has the mode and the id.
abbrev pub only : (ℕ → Chmpx) → Bool → ℕ → ℕ → List ℕ → Bool
only store is_server chmpxid a [] = true
only store is_server chmpxid a (x ∷ xs) =
    (x == a || not (matches store is_server chmpxid x)) && only store is_server chmpxid a xs

search_chain-only :
    (store : ℕ → Chmpx) (s : Bool) (id a : ℕ) (chain : List ℕ)
    → only store s id a chain ≡ true
    → not_in a chain ≡ true
    → search_chain store s id chain ≡ none
unfolding search_chain
search_chain-only store s id a [] h k = refl
search_chain-only store s id a (x ∷ xs) h k = ground (arith, search_chain-only store s id a xs)

search_chain-unlink :
    (store : ℕ → Chmpx) (s : Bool) (id a : ℕ) (chain : List ℕ)
    → distinct chain ≡ true
    → only store s id a chain ≡ true
    → search_chain store s id (unlink a chain) ≡ none
unfolding search_chain unlink
search_chain-unlink store s id a [] h k = refl
search_chain-unlink store s id a (x ∷ xs) h k =
    ground
      (arith, search_chain-unlink store s id a xs, search_chain-only store s id a xs, ==_iff x a)

search_chain-unlink_other :
    (store : ℕ → Chmpx) (s : Bool) (id a : ℕ) (chain : List ℕ)
    → matches store s id a ≡ false
    → search_chain store s id (unlink a chain) ≡ search_chain store s id chain
unfolding search_chain unlink
search_chain-unlink_other store s id a [] h = refl
search_chain-unlink_other store s id a (x ∷ xs) h = elim (Bool-cases (x == a)) [
  | inl e ↦ let same : x ≡ a = (==_iff x a).0 e in rw (same, h, (==_iff a a).1 refl) refl
  | inr e ↦ rw (e, search_chain-unlink_other store s id a xs h) refl
]

-- Retrieving a node changes one thing: the node is not found any more, if no other node of its
-- bucket has its mode and id and no node stands in the bucket twice; a search for another mode or id
-- finds what it found before.
pub search_chmpxid-retrieve_chmpx_id_map :
    (store : ℕ → Chmpx) (a : ℕ) (map : Buckets) (is_server : Bool) (chmpxid : ℕ)
    → distinct (map (bucket chmpxid)) ≡ true
    → (matches store is_server chmpxid a ≡ true
        → only store is_server chmpxid a (map (bucket chmpxid)) ≡ true)
    → search_chmpxid store is_server chmpxid (retrieve_chmpx_id_map store a map) ≡ (
        if matches store is_server chmpxid a
        then none
        else search_chmpxid store is_server chmpxid map)
unfolding search_chmpxid retrieve_chmpx_id_map
search_chmpxid-retrieve_chmpx_id_map store a map s id single alone = ground (
  arith,
  search_chain-unlink store s id a (map (bucket id)),
  search_chain-unlink_other store s id a (map (bucket id)),
  ==_iff (store a).chmpxid id,
  ==_iff (bucket (store a).chmpxid) (bucket id),
  ==_iff (store a).chmpxid invalid_chmpxid,
)
