-- ===== src/Status/Change.antt =====
-- lib/chmstructure.h, the CHANGE_CHMPXSTS_* macros: how a status answers to a request to go down,
-- out of service, into service, and to the suspend flag. Each macro assigns its argument step by
-- step; here the value after each assignment is named.
use chmpx.Base.{ℕ, Bool, true, false, not, ◌||◌, if◌then◌else◌}
use chmpx.Status.{
  srvout_up_normal, srvout_down_normal, srvin_up_normal, srvin_up_pending, srvin_up_addpending,
  srvin_up_delpending, srvin_down_normal, srvin_down_delpending, srvin_down_deleted, set_nosup,
  set_suspend, is_down, is_up, is_slave, is_srvout, is_srvin, is_noact, is_add, is_delete,
  is_pending, is_nosup, is_operating,
}

-- CHANGE_CHMPXSTS_SUSPEND_FLAG
unfoldable pub change_suspend_flag : ℕ → Bool → ℕ
unfolding is_down is_slave set_nosup set_suspend
change_suspend_flag s suspend =
    if is_down s || is_slave s
    then set_nosup s
    else (if suspend then set_suspend s else set_nosup s)

-- CHANGE_CHMPXSTS_TO_SUSPEND and CHANGE_CHMPXSTS_TO_NOSUP
unfoldable pub change_to_suspend : ℕ → ℕ
unfolding change_suspend_flag
change_to_suspend s = change_suspend_flag s true

unfoldable pub change_to_nosup : ℕ → ℕ
unfolding change_suspend_flag
change_to_nosup s = change_suspend_flag s false

-- CHANGE_CHMPXSTS_TO_DOWN
unfoldable pub change_to_down : ℕ → ℕ
unfolding is_srvin is_srvout is_up is_down is_noact is_add is_delete is_operating
change_to_down s =
    if is_srvin s
    then (if is_up s
        then (if is_noact s
            then srvin_down_normal
            else (if is_add s
                then srvout_down_normal
                else (if is_delete s
                    then (if is_operating s then srvin_down_deleted else srvin_down_delpending)
                    else s)))
        else (if is_down s
            then (if is_delete s then srvin_down_delpending else srvin_down_normal)
            else s))
    else (if is_srvout s then srvout_down_normal else s)

-- The lines of CHANGE_CHMPXSTS_TO_SRVOUT that follow an assignment: they read the new status.
unfoldable pub keep_suspend : ℕ → ℕ
unfolding is_nosup change_to_nosup change_to_suspend
keep_suspend s = if is_nosup s then change_to_nosup s else change_to_suspend s

-- CHANGE_CHMPXSTS_TO_SRVOUT
unfoldable pub change_to_srvout : ℕ → ℕ
unfolding is_srvin is_up is_down is_noact is_add is_operating keep_suspend
change_to_srvout s =
    if is_srvin s
    then (if is_up s
        then (if is_noact s
            then (if not (is_operating s) then keep_suspend srvin_up_delpending else s)
            else (if is_add s
                then (if not (is_operating s) then keep_suspend srvout_up_normal else s)
                else s))
        else (if is_down s then (if is_noact s then srvin_down_delpending else s) else s))
    else s

-- CHANGE_CHMPXSTS_TO_SRVIN
unfoldable pub change_to_srvin : ℕ → ℕ
unfolding is_srvin is_srvout is_up is_noact is_delete is_pending is_nosup change_to_suspend
change_to_srvin s =
    if is_srvin s
    then (if is_up s
        then (if is_delete s
            then (if is_pending s
                then (if is_nosup s then srvin_up_pending else change_to_suspend srvin_up_normal)
                else s)
            else s)
        else s)
    else (if is_srvout s
        then (if is_up s
            then (if is_noact s then (if is_nosup s then srvin_up_addpending else s) else s)
            else s)
        else s)
