-- ===== src/Merge/Calls/Tests.antt =====
-- A server that is alone, and one of the four servers of a RING, during a merge.
use chmpx.Base.{ℕ, ◌+◌, ◌≡◌, refl, true, false, none, List, [], ◌∷◌, inr, arith}
use chmpx.Exec.{◌>>=◌}
use chmpx.Status.{srvout_up_normal, srvin_up_normal, is_basehash, is_operating}
use chmpx.Ring.{Chmpx, server_mode, invalid_chmpxid, invalid_hashval, base_hash_count}
use chmpx.Ring.Walk.{ring_is_operating}
use chmpx.IdMap.{save_chmpx_id_map}
use chmpx.Man.{Man}
use chmpx.Man.Sample.{start}
use chmpx.Merge.{Node, World, self_chmpx}
use chmpx.Merge.Calls.{Call, ask_service_in, ask_start, ask_suspend, suspend, abort, perform, serve}
use chmpx.Merge.Service.{request_service_out}
use chmpx.Merge.Service.Alone.{request_service_out_fails_alone}
use chmpx.Merge.Safe.Shared.{Consistent}
use chmpx.Merge.Safe.History.{serve-Consistent}

abbrev world : World
world = record {
  delivers = λ p. true;
  connects = λ chmpxid. true;
  has_thread = true;
  wakes_thread = true;
  now = 7;
  tells_clients = true;
  reload = λ m. (true, m);
}

abbrev around : Man → Node
around m = record {
  man = m;
  slaves = 900 ∷ [];
  has_clients = true;
  is_auto_merge = true;
  is_auto_merge_suspend = false;
  is_do_merge = false;
  is_server_mode = true;
  startup_servicein = false;
  is_merge_done_processing = false;
  is_run_merge = false;
  mergeidmap = [];
  sent = [];
  answer = [];
}

abbrev history : List (World × Call)
history =
    (world, suspend) ∷ (world, ask_suspend true) ∷ (world, abort) ∷ (world, ask_start true) ∷ []

start-Consistent : Consistent start
unfolding base_hash_count ring_is_operating is_basehash is_operating
start-Consistent = record {
  sized = record { named = refl; single = refl; room = omega arith; small = omega arith };
  counted = record { base = refl; merging = refl };
  server = refl;
}

serve-Consistent_example : Consistent (serve history (around start)).man
serve-Consistent_example =
    serve-Consistent history (around start) (λ m c. c, (λ m c. c, (λ m c. c, (λ m c. c, tt))))
      start-Consistent

-- One server, out of service
abbrev single : ℕ → Chmpx
single a = record {
  chmpxid = 100 + a;
  has_name = true;
  mode = server_mode;
  base_hash = invalid_hashval;
  pending_hash = invalid_hashval;
  last_status_time = 0;
  status = srvout_up_normal;
}

abbrev lone : Man
lone = record {
  ring = record {
    store = single;
    servers = 1 ∷ [];
    base_arr = none ∷ none ∷ [];
    pend_arr = none ∷ none ∷ [];
  };
  chmpxid_map = save_chmpx_id_map single 1 (λ k. []);
  self = 1;
  has_selfsock = true;
  replica_count = 0;
  bhash_count = 0;
  is_operating = false;
  last_chmpxid = invalid_chmpxid;
}

request_service_out_fails_alone_example :
    (request_service_out world 101 true (around lone)).0 ≡ none
request_service_out_fails_alone_example =
    request_service_out_fails_alone world 101 true (around lone) (record { servers = refl })
      (inr refl)

-- A lone server joins the service and merges at once.
lone_joins :
    (self_chmpx
      (serve ((world, ask_service_in true) ∷ (world, ask_start true) ∷ []) (around lone))).status
    ≡ srvin_up_normal
unfolding serve perform ◌>>=◌ base_hash_count ring_is_operating is_basehash is_operating
    chmpx.Merge.on_man chmpx.Merge.server_status chmpx.Merge.get_chmpx_svr
    chmpx.Merge.get_chmpx_svrs chmpx.Merge.man_set_self_hash chmpx.Merge.man_set_server_hash
    chmpx.Merge.set_status_of_self chmpx.Merge.set_status_of chmpx.Merge.set_base_hash_of_self
    chmpx.Merge.set_base_hash_of chmpx.Merge.update_pending_hash chmpx.Merge.touch_self
    chmpx.Merge.say chmpx.Merge.deny chmpx.Merge.or_deny chmpx.Merge.Status.status_before_merge
    chmpx.Merge.Status.status_after_complete chmpx.Merge.Status.is_down_target
    chmpx.Merge.Status.down_status chmpx.Merge.Send.is_server_chmpxid chmpx.Merge.Send.before
    chmpx.Merge.Send.others chmpx.Merge.Send.send chmpx.Merge.Send.send_to_slaves
    chmpx.Merge.Send.px_com_send_slaves_status_change chmpx.Merge.Send.px_com_send_status_change
    chmpx.Merge.Send.px_com_send chmpx.Merge.Send.first_connected chmpx.Merge.Send.next_ring_chmpxid
    chmpx.Merge.Send.tell_status chmpx.Merge.Down.change_down_svr chmpx.Merge.Down.tell_down_svr
    chmpx.Merge.Down.change_down_svrs chmpx.Merge.Down.change_down_svr_status_by_merge
    chmpx.Merge.Down.blocks_start chmpx.Merge.Down.blocks_complete
    chmpx.Merge.Down.check_all_status_for_merge_start
    chmpx.Merge.Down.check_all_status_for_merge_complete chmpx.Merge.Complete.finish_merge
    chmpx.Merge.Complete.do_merge_complete chmpx.Merge.Complete.complete_alone
    chmpx.Merge.Complete.complete_around chmpx.Merge.Complete.request_merge_complete
    chmpx.Merge.Complete.tell_done chmpx.Merge.Complete.after_done chmpx.Merge.Complete.set_done
    chmpx.Merge.Complete.merge_done chmpx.Merge.Start.is_pending_exchange_data
    chmpx.Merge.Start.change_status_before_merge_start chmpx.Merge.Start.do_merge_start
    chmpx.Merge.Start.start_alone chmpx.Merge.Start.request_merge_start chmpx.Merge.Start.run_merge
    chmpx.Merge.Service.notice_alone chmpx.Merge.Service.notice_around
    chmpx.Merge.Service.change_self chmpx.Merge.Service.request_service_in
    chmpx.Status.Change.change_to_srvin chmpx.Status.Change.change_suspend_flag
    chmpx.Status.is_server chmpx.Status.is_srvout chmpx.Status.is_doing chmpx.Status.is_done
    chmpx.Status.is_pendinghash chmpx.Status.is_srvin chmpx.Status.is_up chmpx.Status.is_down
    chmpx.Status.Operate.set_chmpxsts_done chmpx.Ring.set_status chmpx.Ring.set_hash
    chmpx.Ring.touch chmpx.Ring.assign_base chmpx.Ring.assign_pending chmpx.Ring.update_hash_from
    chmpx.Ring.update_hash chmpx.Ring.count_status chmpx.Ring.pending_hash_count
    chmpx.Ring.is_hashtg_base chmpx.Ring.is_hashtg_pending chmpx.Ring.Walk.after
    chmpx.Ring.Walk.scan chmpx.Ring.Walk.is_next chmpx.Ring.Walk.to_next chmpx.IdMap.bucket
    chmpx.IdMap.save_chmpx_id_map chmpx.IdMap.search_chain chmpx.IdMap.search_chmpxid
    chmpx.Man.man_update_hash chmpx.Man.Select.find_server chmpx.Man.Select.get_next_ring_chmpxid
    chmpx.Man.SetStatus.recount chmpx.Man.SetStatus.set_self_status
    chmpx.Man.SetStatus.store_server_status
lone_joins = refl
