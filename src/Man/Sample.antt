-- ===== src/Man/Sample.antt =====
-- A list of four servers for the tests.
use chmpx.Base.{ℕ, ◌+◌, ◌==◌, true, false, if◌then◌else◌, none, [], ◌∷◌}
use chmpx.Status.{srvin_up_normal, srvin_up_addpending}
use chmpx.Ring.{Chmpx, server_mode, invalid_chmpxid, invalid_hashval}
use chmpx.IdMap.{save_chmpx_id_map}
use chmpx.Man.{Man}

-- Servers 1, 2 and 4 are in the base ring; server 3 waits to be added.
abbrev pub node : ℕ → Chmpx
node a = record {
  chmpxid = 100 + a;
  has_name = true;
  mode = server_mode;
  base_hash = invalid_hashval;
  pending_hash = invalid_hashval;
  last_status_time = 0;
  status = if a == 3 then srvin_up_addpending else srvin_up_normal;
}

abbrev pub start : Man
start = record {
  ring = record {
    store = node;
    servers = 1 ∷ 2 ∷ 3 ∷ 4 ∷ [];
    base_arr = none ∷ none ∷ none ∷ none ∷ [];
    pend_arr = none ∷ none ∷ none ∷ none ∷ [];
  };
  chmpxid_map =
      save_chmpx_id_map node 4
        (save_chmpx_id_map node 3 (save_chmpx_id_map node 2 (save_chmpx_id_map node 1 (λ k. []))));
  self = 1;
  has_selfsock = true;
  replica_count = 1;
  bhash_count = 3;
  is_operating = false;
  last_chmpxid = invalid_chmpxid;
}
