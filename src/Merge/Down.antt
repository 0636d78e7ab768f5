-- ===== src/Merge/Down.antt =====
-- ChmEventSock::ChangeDownSvrStatusByMerge, CheckAllStatusForMergeStart and
-- CheckAllStatusForMergeComplete: what concerns all servers of the list.
pub mod Target
mod Tests
use chmpx.Base.{ℕ, Bool, false, not, ◌&&◌, ◌||◌, if◌then◌else◌, List, [], ◌∷◌, any}
use chmpx.Exec.{Exec, give, look, attempt, demand, ◌>>=◌, ◌>>◌}
use chmpx.Status.{
  is_down, is_up, is_srvin, is_noact, is_add, is_delete, is_pending, is_doing, is_done, is_suspend,
}
use chmpx.Ring.{Chmpx, invalid_hashval}
use chmpx.Merge.{
  Node, World, get_chmpx_svr, get_chmpx_svrs, set_status_of, set_base_hash_of, update_pending_hash,
}
use chmpx.Merge.Status.{DownMerge, start, complete, abort, is_down_target, down_status}
use chmpx.Merge.Send.{next_ring_chmpxid, tell_status}

module _ (w : World) where
  -- The new status of one server that is down, and the new base hash at the end of a merge
  unfoldable pub change_down_svr : DownMerge → ℕ → Exec Node (Unit {0})
  change_down_svr start chmpxid = set_status_of w chmpxid (down_status start)
  change_down_svr complete chmpxid = do
    set_status_of w chmpxid (down_status complete)
    set_base_hash_of w chmpxid invalid_hashval
  change_down_svr abort chmpxid = set_status_of w chmpxid (down_status abort)

  -- What is sent about it
  unfoldable pub tell_down_svr : ℕ → ℕ → Exec Node (Unit {0})
  tell_down_svr to_chmpxid chmpxid = do
    server ← get_chmpx_svr chmpxid
    tell_status w to_chmpxid server

  -- The loop over the copies of the servers; only a failure of UpdateHash ends it.
  unfoldable pub change_down_svrs : DownMerge → ℕ → List Chmpx → Exec Node (Unit {0})
  change_down_svrs type to_chmpxid [] = give tt
  change_down_svrs type to_chmpxid (server ∷ rest) = do
    changed ←
        (if is_down_target type server.status
          then attempt (change_down_svr type server.chmpxid)
          else give false)
    (if changed
        then (do update_pending_hash w; attempt (tell_down_svr to_chmpxid server.chmpxid); give tt)
        else give tt)
    change_down_svrs type to_chmpxid rest

  -- ChangeDownSvrStatusByMerge
  unfoldable pub change_down_svr_status_by_merge : DownMerge → Exec Node (Unit {0})
  change_down_svr_status_by_merge type = do
    servers ← get_chmpx_svrs
    n ← look (λ n. n)
    change_down_svrs type (next_ring_chmpxid w n) servers

-- The servers that forbid to start a merge, and to complete one
unfoldable pub blocks_start : ℕ → Bool
unfolding is_srvin is_up is_down is_noact is_add is_delete is_suspend
blocks_start s =
    is_srvin s
    && (if is_up s
        then (is_noact s && is_suspend s)
          || (is_add s && is_suspend s)
          || (is_delete s && is_suspend s)
        else is_down s && is_noact s)

unfoldable pub blocks_complete : ℕ → Bool
unfolding is_srvin is_up is_down is_doing is_delete is_pending is_done
blocks_complete s =
    is_srvin s
    && (if is_up s
        then is_doing s
        else is_down s && is_delete s && not (is_pending s) && not (is_done s))

unfoldable pub check_all_status_for_merge_start : Exec Node (Unit {0})
check_all_status_for_merge_start = do
  n ← look (λ n. n)
  demand (not n.man.is_operating)
  servers ← get_chmpx_svrs
  demand (not (any (λ (c : Chmpx). blocks_start c.status) servers))

unfoldable pub check_all_status_for_merge_complete : Exec Node (Unit {0})
check_all_status_for_merge_complete = do
  servers ← get_chmpx_svrs
  demand (not (any (λ (c : Chmpx). blocks_complete c.status) servers))
