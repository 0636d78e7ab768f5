-- ===== src/Man/SetStatus.antt =====
-- lib/chmstructure.tcc, chmpxman_lap::SetServerStatus and SetSelfStatus: a new status of a server,
-- with the counts that depend on all statuses.
pub mod Down
pub mod Counted
mod Tests
use chmpx.Base.{ℕ, Bool, true, false, not, ◌&&◌, ◌==◌, if◌then◌else◌, Option, none, some}
use chmpx.Status.{is_down, is_up}
use chmpx.Status.Change.{change_suspend_flag}
use chmpx.Ring.{Chmpx, Ring, set_status, base_hash_count}
use chmpx.Ring.Walk.{ring_is_operating, check_all_service_out_status}
use chmpx.IdMap.{is_server_mode}
use chmpx.Man.{Man}
use chmpx.Man.Select.{find_server}

-- The last assignments of both: the count of the base ring and the flag of a merge.
unfoldable pub recount : Ring → Man → Man
recount r m = record m {
  ring = r;
  bhash_count = base_hash_count r;
  is_operating = ring_is_operating r;
}

-- What follows in SetServerStatus once the node is known
unfoldable pub store_server_status : ℕ → ℕ → ℕ → Bool → Man → Bool × Man
unfolding recount
store_server_status now a status need_check_all_down m =
    let (stored, r1) = set_status now a status m.ring in
    let (checked, r2) =
      if need_check_all_down && is_down status
      then check_all_service_out_status now r1
      else (true, r1) in
    if not stored
    then (false, m)
    else (if not checked then (false, record m { ring = r2 }) else (true, recount r2 m))

-- chmpxman_lap::SetServerStatus
unfoldable pub set_server_status : ℕ → ℕ → ℕ → Bool → Man → Bool × Man
set_server_status now chmpxid status is_client_join m =
    if is_server_mode (m.ring.store m.self) && (m.ring.store m.self).chmpxid == chmpxid
    then (if is_down status && m.has_selfsock
        then (false, m)
        else (if is_up status && not m.has_selfsock
            then (false, m)
            else store_server_status now m.self (change_suspend_flag status (not is_client_join))
                false m))
    else elim (find_server chmpxid m) [
      | none ↦ (false, m)
      | some a ↦ store_server_status now a status true m
    ]

-- chmpxman_lap::SetSelfStatus
unfoldable pub set_self_status : ℕ → ℕ → Bool → Man → Bool × Man
unfolding recount
set_self_status now status is_client_join m =
    let is_server = is_server_mode (m.ring.store m.self) in
    let status' = if is_server then change_suspend_flag status (not is_client_join) else status in
    let (stored, r) = set_status now m.self status' m.ring in
    if is_server && is_up status && not m.has_selfsock
    then (false, m)
    else (if not stored
        then (false, m)
        else (true, if is_server then recount r m else record m { ring = r }))
