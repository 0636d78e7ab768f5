-- ===== src/Merge/Abort/Tests.antt =====
-- The first of four servers aborts a merge in which it takes part, and is suspended.
use chmpx.Base.{◌≡◌, refl, true, some, arith, ◌==◌, if◌then◌else◌}
use chmpx.Exec.{◌>>=◌}
use chmpx.Status.{
  srvin_up_normal, srvin_up_merging, srvin_down_delpending, is_safe, is_up, is_down, is_srvin,
  is_noact, is_doing, is_done, is_nosup, set_nosup, is_slave, is_add, is_delete,
}
use chmpx.Status.Safe.{IsSafe}
use chmpx.Status.Change.{change_suspend_flag, change_to_suspend}
use chmpx.IdMap.{bucket, save_chmpx_id_map, search_chain, search_chmpxid}
use chmpx.Man.{Man, man_update_hash}
use chmpx.Man.Select.{find_server}
use chmpx.Man.SetStatus.{set_self_status, recount}
use chmpx.Ring.{Chmpx, set_status}
use chmpx.Merge.{Node, on_man, set_status_of_self, update_pending_hash, self_chmpx}
use chmpx.Merge.Sample.{four, world, sender}
use chmpx.Merge.Status.{status_in_suspend}
use chmpx.Merge.Abort.{change_self_status}
use chmpx.Merge.Abort.Stored.{Suspended, status_in_suspend-change_self_status}

-- The first server takes part in a merge.
abbrev merging : Man
merging = record four {
  ring = record four.ring {
    store = λ a.
        if a == 1
        then record (four.ring.store 1) { status = srvin_up_merging }
        else four.ring.store a;
  };
}

abbrev member : Node
member = record sender { man = merging }

normal-IsSafe : IsSafe srvin_up_normal
unfolding is_safe
normal-IsSafe = record { word = omega arith; safe = refl }

paused : (change_self_status world (status_in_suspend srvin_up_normal) sender).0 ≡ some tt
unfolding change_self_status ◌>>=◌ on_man set_status_of_self update_pending_hash
    chmpx.Merge.Status.status_in_suspend chmpx.Merge.Send.is_server_chmpxid chmpx.Merge.Send.before
    chmpx.Merge.Send.others chmpx.Merge.Send.send chmpx.Merge.Send.send_to_slaves
    chmpx.Merge.Send.px_com_send_slaves_status_change chmpx.Merge.Send.px_com_send_status_change
    chmpx.Merge.Send.first_connected chmpx.Merge.Send.next_ring_chmpxid chmpx.Merge.Send.tell_status
    chmpx.Status.Change.change_suspend_flag chmpx.Status.is_basehash chmpx.Status.is_operating
    chmpx.Status.is_pendinghash chmpx.Status.is_up chmpx.Status.is_down chmpx.Status.is_safe
    chmpx.Status.is_slave chmpx.Ring.set_status chmpx.Ring.set_hash chmpx.Ring.touch
    chmpx.Ring.assign_base chmpx.Ring.assign_pending chmpx.Ring.update_hash_from
    chmpx.Ring.update_hash chmpx.Ring.is_hashtg_base chmpx.Ring.is_hashtg_pending
    chmpx.Ring.Walk.after chmpx.Ring.Walk.scan chmpx.Ring.Walk.is_next chmpx.Ring.Walk.to_next
    chmpx.IdMap.bucket chmpx.IdMap.save_chmpx_id_map chmpx.IdMap.search_chain
    chmpx.IdMap.search_chmpxid chmpx.Man.man_update_hash chmpx.Man.Select.find_server
    chmpx.Man.Select.get_next_ring_chmpxid chmpx.Man.SetStatus.recount
    chmpx.Man.SetStatus.set_self_status
paused = refl

status_in_suspend-change_self_status_example :
    Suspended true srvin_up_normal
      (self_chmpx (change_self_status world (status_in_suspend srvin_up_normal) sender).1).status
status_in_suspend-change_self_status_example =
    status_in_suspend-change_self_status world sender refl normal-IsSafe paused
