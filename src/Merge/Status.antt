-- ===== src/Merge/Status.antt =====
-- lib/chmeventsock.cc: how the handlers of a merge choose the new status of their own server.
pub mod Laws
mod Tests
use chmpx.Base.{
  ℕ, bit_and, Bool, true, false, not, ◌&&◌, ◌||◌, ◌==◌, if◌then◌else◌, Option, none, some,
}
use chmpx.Status.{
  mask_operate, srvin_up_normal, srvout_up_normal, srvout_down_normal, srvin_down_deleted,
  set_nosup, is_down, is_up, is_srvout, is_srvin, is_noact, is_add, is_delete, is_pending, is_doing,
  is_done, is_nosup, is_suspend, is_operating,
}
use chmpx.Status.Change.{change_to_suspend, change_to_nosup}
use chmpx.Status.Operate.{
  set_chmpxsts_noact, set_chmpxsts_nothing, set_chmpxsts_pending, set_chmpxsts_doing,
  set_chmpxsts_done,
}

-- IS_CHMPXSTS_NOTHING
unfoldable pub is_nothing : ℕ → Bool
is_nothing s = 0 == bit_and s mask_operate

-- ChangeStatusBeforeMergeStart; `same_hash` tells that the base and the pending hash and their
-- numbers agree.
unfoldable pub status_before_merge : Bool → ℕ → Option ℕ
unfolding is_operating is_srvin is_up is_down is_pending is_suspend is_noact is_nothing is_delete
    set_chmpxsts_doing set_chmpxsts_done
status_before_merge same_hash s =
    if is_operating s
    then none
    else (if not (is_srvin s)
        then none
        else (if is_up s
            then (if not (is_pending s)
                then none
                else (if is_suspend s
                    then none
                    else (if not (is_noact s) && same_hash
                        then none
                        else some (set_chmpxsts_doing s))))
            else (if is_down s
                then (if is_noact s && is_nothing s
                    then none
                    else (if is_delete s && is_pending s then some (set_chmpxsts_done s) else none))
                else some s)))

-- MergeAbort
unfoldable pub status_after_abort : ℕ → ℕ
unfolding is_srvin is_up is_down is_noact is_add is_delete is_doing is_done is_nosup set_nosup
    set_chmpxsts_noact set_chmpxsts_nothing set_chmpxsts_pending
status_after_abort s =
    if not (is_srvin s)
    then s
    else (if is_up s
        then (if is_noact s
            then (if is_doing s || is_done s
                then (if is_nosup s then set_chmpxsts_pending s else set_chmpxsts_nothing s)
                else s)
            else (if is_add s
                then (if is_doing s || is_done s then set_chmpxsts_pending s else s)
                else (if is_delete s
                    then (if is_nosup s
                        then set_chmpxsts_pending (set_chmpxsts_noact s)
                        else set_chmpxsts_nothing (set_chmpxsts_noact s))
                    else s)))
        else (if is_down s
            then set_nosup (if is_delete s then set_chmpxsts_nothing (set_chmpxsts_noact s) else s)
            else s))

-- MergeComplete; `none` is `return false`.
unfoldable pub status_after_complete : ℕ → Option ℕ
unfolding is_srvin is_up is_down is_noact is_add is_delete is_pending is_doing is_done is_suspend
    change_to_suspend
status_after_complete s =
    if not (is_srvin s)
    then some s
    else (if is_up s
        then (if is_noact s || is_add s
            then (if is_suspend s
                then none
                else (if is_pending s || is_doing s then none else some srvin_up_normal))
            else (if is_delete s
                then (if not (is_done s) && is_suspend s
                    then none
                    else (if is_pending s || is_doing s
                        then none
                        else some (
                            if is_suspend s
                            then change_to_suspend srvout_up_normal
                            else srvout_up_normal)))
                else some s))
        else (if is_down s
            then (if is_delete s && not (is_done s)
                then none
                else some (if is_delete s && is_done s then srvout_down_normal else s))
            else some s))

-- DoSuspend
unfoldable pub status_in_suspend : ℕ → ℕ
unfolding is_srvin is_srvout is_up is_down is_noact is_add is_delete change_to_suspend
    change_to_nosup set_chmpxsts_nothing set_chmpxsts_pending
status_in_suspend s =
    if is_srvin s
    then (if is_up s
        then (if is_noact s
            then change_to_suspend (set_chmpxsts_nothing s)
            else (if is_add s || is_delete s
                then change_to_suspend (set_chmpxsts_pending s)
                else s))
        else (if is_down s then change_to_nosup s else s))
    else (if is_srvout s
        then (if is_up s then change_to_suspend s else (if is_down s then change_to_nosup s else s))
        else s)

-- CHMDOWNSVRMERGE, and what ChangeDownSvrStatusByMerge makes of the status of a server that is down
pub data DownMerge : Type 0 where
  start complete abort : DownMerge

unfoldable pub is_down_target : DownMerge → ℕ → Bool
unfolding is_srvin is_down is_delete is_done
is_down_target start s = is_srvin s && is_down s && is_delete s && not (is_done s)
is_down_target complete s = is_srvin s && is_down s && is_delete s
is_down_target abort s = is_srvin s && is_down s && is_delete s

unfoldable pub down_status : DownMerge → ℕ
down_status start = srvin_down_deleted
down_status complete = srvout_down_normal
down_status abort = srvout_down_normal
