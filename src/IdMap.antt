-- ===== src/IdMap.antt =====
-- lib/chmstructure.tcc, chmpxlist_lap::SaveChmpxIdMap, RetrieveChmpxIdMap and SearchChmpxid: the
-- hash table from ids to nodes of the list. A bucket is the chain of nodes that the `same` pointers
-- join, as the sequence of their addresses.
pub mod Search
mod Tests
use chmpx.Base.{
  ℕ, Bool, true, false, not, ◌&&◌, ◌==◌, if◌then◌else◌, Option, none, some, List, [], ◌∷◌, ◌++◌,
  any, bit_and,
}
use chmpx.Ring.{Chmpx, Mode, server_mode, unknown_mode, slave_mode, invalid_chmpxid, update}

-- chmpxid & CHMPXID_MAP_MASK
unfoldable pub bucket : ℕ → ℕ
bucket chmpxid = bit_and chmpxid 0xFFF

abbrev pub Buckets : Type 0
Buckets = ℕ → List ℕ

abbrev pub is_in : ℕ → List ℕ → Bool
is_in a = any (λ x. x == a)

-- The chain up to and with a node, which is where it ends when the node's `same` pointer is reset
unfoldable pub up_to : ℕ → List ℕ → List ℕ
up_to a [] = []
up_to a (x ∷ xs) = if x == a then x ∷ [] else x ∷ up_to a xs

-- chmpxlist_lap::SaveChmpxIdMap
unfoldable pub save_chmpx_id_map : (ℕ → Chmpx) → ℕ → Buckets → Buckets
save_chmpx_id_map store a map =
    let chmpxid = (store a).chmpxid in
    let chain = map (bucket chmpxid) in
    if chmpxid == invalid_chmpxid
    then map
    else update map (bucket chmpxid) (if is_in a chain then up_to a chain else chain ++ a ∷ [])

unfoldable pub unlink : ℕ → List ℕ → List ℕ
unlink a [] = []
unlink a (x ∷ xs) = if x == a then xs else x ∷ unlink a xs

-- chmpxlist_lap::RetrieveChmpxIdMap
unfoldable pub retrieve_chmpx_id_map : (ℕ → Chmpx) → ℕ → Buckets → Buckets
retrieve_chmpx_id_map store a map =
    let chmpxid = (store a).chmpxid in
    if chmpxid == invalid_chmpxid
    then map
    else update map (bucket chmpxid) (unlink a (map (bucket chmpxid)))

-- chmpx_lap::IsServerMode
abbrev pub is_server_mode : Chmpx → Bool
is_server_mode c = elim c.mode [ server_mode ↦ true | unknown_mode ↦ false | slave_mode ↦ false ]

abbrev pub same_mode : Bool → Chmpx → Bool
same_mode is_server c = if is_server then is_server_mode c else not (is_server_mode c)

-- The loop of SearchChmpxid over a chain
unfoldable pub search_chain : (ℕ → Chmpx) → Bool → ℕ → List ℕ → Option ℕ
search_chain store is_server chmpxid [] = none
search_chain store is_server chmpxid (a ∷ rest) =
    let further = search_chain store is_server chmpxid rest in
    if same_mode is_server (store a) && (store a).chmpxid == chmpxid then some a else further

-- chmpxlist_lap::SearchChmpxid; the mode is that of the current node.
unfoldable pub search_chmpxid : (ℕ → Chmpx) → Bool → ℕ → Buckets → Option ℕ
search_chmpxid store is_server chmpxid map =
    let found = search_chain store is_server chmpxid (map (bucket chmpxid)) in
    if chmpxid == invalid_chmpxid then none else found
