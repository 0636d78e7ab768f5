-- ===== src/Merge/Down/Tests.antt =====
-- The second of four servers is down and waits to be deleted when a merge is aborted.
use chmpx.Base.{◌≡◌, refl, some, arith}
use chmpx.Exec.{◌>>=◌}
use chmpx.Status.{srvin_down_delpending, is_safe, is_down, is_slave, is_up}
use chmpx.Status.Safe.{IsSafe}
use chmpx.Man.Select.{find_server}
use chmpx.IdMap.{bucket, save_chmpx_id_map, search_chain, search_chmpxid}
use chmpx.Man.SetStatus.{set_server_status, store_server_status, recount}
use chmpx.Ring.{set_status}
use chmpx.Ring.Walk.{check_all_service_out_status}
use chmpx.Merge.{on_man, set_status_of}
use chmpx.Merge.Sample.{four, world, sender}
use chmpx.Merge.Status.{abort, is_down_target, down_status}
use chmpx.Merge.Down.{change_down_svr}
use chmpx.Merge.Down.Target.{Another, TakenOut, change_down_svr_lem}

delpending-IsSafe : IsSafe srvin_down_delpending
unfolding is_safe
delpending-IsSafe = record { word = omega arith; safe = refl }

second : Another 102 2 four
unfolding find_server search_chmpxid search_chain save_chmpx_id_map bucket
second = record { found = refl; other = refl }

changed : (change_down_svr world abort 102 sender).0 ≡ some tt
unfolding change_down_svr set_status_of on_man ◌>>=◌ set_server_status store_server_status recount
    set_status is_safe down_status find_server search_chmpxid search_chain save_chmpx_id_map bucket
    is_down check_all_service_out_status is_slave is_up
changed = refl

change_down_svr_lem_example :
    TakenOut srvin_down_delpending
      ((change_down_svr world abort 102 sender).1.man.ring.store 2).status
unfolding is_down_target
change_down_svr_lem_example =
    change_down_svr_lem world abort 102 2 sender refl second delpending-IsSafe refl changed
