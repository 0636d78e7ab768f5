-- ===== src/IdMap/Tests.antt =====
-- Two nodes in one bucket: the ids 0x1005 and 0x2005 differ above the mask.
use chmpx.Base.{ℕ, ◌*◌, ◌+◌, ◌≡◌, refl, true, ◌==◌, if◌then◌else◌, none, some, [], ◌∷◌, arith}
use chmpx.Status.{srvin_up_normal}
use chmpx.Ring.{Chmpx, server_mode, invalid_hashval}
use chmpx.IdMap.{Buckets, bucket, save_chmpx_id_map, retrieve_chmpx_id_map, search_chmpxid}
use chmpx.IdMap.Search.{
  matches, search_chmpxid-save_chmpx_id_map, retrieve_chmpx_id_map-save_chmpx_id_map,
  search_chmpxid-retrieve_chmpx_id_map,
}

abbrev node : ℕ → Chmpx
node a = record {
  chmpxid = a * 4096 + 5;
  has_name = true;
  mode = server_mode;
  base_hash = invalid_hashval;
  pending_hash = invalid_hashval;
  last_status_time = 0;
  status = srvin_up_normal;
}

abbrev start : Buckets
start k = if k == 5 then 1 ∷ [] else []

search_chmpxid-save_chmpx_id_map_example :
    search_chmpxid node true 0x2005 (save_chmpx_id_map node 2 start)
    ≡ elim (search_chmpxid node true 0x2005 start) [
      | some b ↦ some b
      | none ↦ if matches node true 0x2005 2 then some 2 else none
    ]
unfolding bucket
search_chmpxid-save_chmpx_id_map_example =
    search_chmpxid-save_chmpx_id_map node 2 start true 0x2005 (omega arith) refl

retrieve_chmpx_id_map-save_chmpx_id_map_example :
    retrieve_chmpx_id_map node 2 (save_chmpx_id_map node 2 start) 5 ≡ 1 ∷ []
unfolding bucket
retrieve_chmpx_id_map-save_chmpx_id_map_example =
    retrieve_chmpx_id_map-save_chmpx_id_map node 2 start 5 refl

search_chmpxid-retrieve_chmpx_id_map_example :
    search_chmpxid node true 0x1005 (retrieve_chmpx_id_map node 1 start) ≡ none
unfolding bucket
search_chmpxid-retrieve_chmpx_id_map_example =
    search_chmpxid-retrieve_chmpx_id_map node 1 start true 0x1005 refl (λ e. refl)
