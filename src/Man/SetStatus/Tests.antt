-- ===== src/Man/SetStatus/Tests.antt =====
-- A server goes down: one of several, and the last one.
use chmpx.Base.{◌≡◌, refl, true, false, not, ◌&&◌, ◌||◌, arith, any, ◌⊎◌, not_empty}
use chmpx.Status.{srvin_down_normal, is_safe, is_down, is_up, is_slave}
use chmpx.Ring.{Ring, hashtg_both, set_status}
use chmpx.Ring.Walk.{check_all_service_out_status}
use chmpx.IdMap.{bucket, save_chmpx_id_map, search_chmpxid, search_chain}
use chmpx.Man.{man_update_hash}
use chmpx.Man.Sample.{node, start}
use chmpx.Man.Route.{Routed}
use chmpx.Man.Select.{find_server}
use chmpx.Man.SetStatus.{set_server_status, store_server_status}
use chmpx.Man.SetStatus.Down.{is_up_node, is_server_node, AllOut, check_all_service_out_status_lem}
use chmpx.Man.SetStatus.Counted.{Sized, set_server_status-Routed}

-- All four servers are down, though in service.
abbrev dead : Ring
dead = record start.ring { store = λ a. record (node a) { status = srvin_down_normal } }

check_all_service_out_status_lem_example :
    (((any (is_up_node dead) dead.servers || not (any (is_server_node dead) dead.servers)) ≡ true)
      × (check_all_service_out_status 7 dead ≡ (not_empty dead.servers, dead)))
    ⊎ (((not (any (is_up_node dead) dead.servers) && any (is_server_node dead) dead.servers) ≡ true)
        × AllOut dead (check_all_service_out_status 7 dead))
check_all_service_out_status_lem_example = check_all_service_out_status_lem 7 dead refl

start-Sized : Sized start.ring
start-Sized = record { named = refl; single = refl; room = omega arith; small = omega arith }

set_server_status-Routed_example :
    Routed
      (man_update_hash true 7 hashtg_both true false
        (set_server_status 7 102 srvin_down_normal true start).1).1
unfolding set_server_status store_server_status find_server search_chmpxid search_chain
    save_chmpx_id_map bucket set_status is_safe is_down check_all_service_out_status is_up is_slave
set_server_status-Routed_example =
    set_server_status-Routed 7 102 srvin_down_normal true true true false start start-Sized refl
      refl refl
