-- ===== src/Merge/Sample.antt =====
-- A RING of four servers in service, of which the second is down and waits to be deleted, seen by the
-- first one.
use chmpx.Base.{ℕ, ◌+◌, true, false, ◌==◌, if◌then◌else◌, none, [], ◌∷◌}
use chmpx.Status.{srvin_up_normal, srvin_down_delpending}
use chmpx.Ring.{Chmpx, server_mode, invalid_chmpxid, invalid_hashval}
use chmpx.IdMap.{save_chmpx_id_map}
use chmpx.Man.{Man}
use chmpx.Merge.{Node, World}

abbrev node : ℕ → Chmpx
node a = record {
  chmpxid = 100 + a;
  has_name = true;
  mode = server_mode;
  base_hash = invalid_hashval;
  pending_hash = invalid_hashval;
  last_status_time = 0;
  status = if a == 2 then srvin_down_delpending else srvin_up_normal;
}

abbrev pub four : Man
four = record {
  ring = record {
    store = node;
    servers = 1 ∷ 2 ∷ 3 ∷ 4 ∷ [];
    base_arr = none ∷ none ∷ none ∷ none ∷ [];
    pend_arr = none ∷ none ∷ none ∷ none ∷ [];
  };
  chmpxid_map =
      save_chmpx_id_map node 4
        (save_chmpx_id_map node 3 (save_chmpx_id_map node 2 (save_chmpx_id_map node 1 (λ k. []))));
  self = 1;
  has_selfsock = true;
  replica_count = 1;
  bhash_count = 4;
  is_operating = false;
  last_chmpxid = invalid_chmpxid;
}

abbrev pub world : World
world = record {
  delivers = λ p. true;
  connects = λ chmpxid. true;
  has_thread = true;
  wakes_thread = true;
  now = 7;
  tells_clients = true;
  reload = λ m. (true, m);
}

abbrev pub sender : Node
sender = record {
  man = four;
  slaves = 900 ∷ [];
  has_clients = true;
  is_auto_merge = true;
  is_auto_merge_suspend = false;
  is_do_merge = true;
  is_server_mode = true;
  startup_servicein = false;
  is_merge_done_processing = false;
  is_run_merge = false;
  mergeidmap = [];
  sent = [];
  answer = [];
}
