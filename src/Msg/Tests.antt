-- ===== src/Msg/Tests.antt =====
-- A pool of three messages.
use chmpx.Base.{◌≡◌, refl, true, false, ◌⊎◌, List, [], ◌∷◌, arith}
use chmpx.Msg.{
  Pool, invalid_msgid, in_range, assign_msg, free_msg, set_mq_flag_status, keep_assigned,
}
use chmpx.Msg.Flags.{
  is_activated, is_chmpxproc, is_clientproc, initialize_mq_flag, not_account_mq_flag,
  set_head_status,
}
use chmpx.Msg.Invariant.{chmpx_kind, Inv}
use chmpx.Msg.Assign.{Assigned, assign_msg_lem}
use chmpx.Msg.Free.{Freed, free_msg_lem}
use chmpx.Msg.Activate.{Kept, set_mq_flag_status_lem}
use chmpx.Msg.Run.{Call, assign, set_status, run, fresh, fill_msgid, run-fresh-Inv}

abbrev history : List Call
history = assign 40 false false ∷ assign 41 true true ∷ set_status 40 100 true true ∷ []

abbrev used : Pool
used = run history (fresh 100 3)

run-fresh-Inv_example : Inv (run history (fresh 100 3))
run-fresh-Inv_example = run-fresh-Inv 100 3 history (omega arith)

used-Inv : Inv used
used-Inv = run-fresh-Inv 100 3 history (omega arith)

assign_msg_lem_example :
    Assigned chmpx_kind used (assign_msg 7 true false used)
    ⊎ ((used.free_msgs ≡ []) × (assign_msg 7 true false used ≡ (invalid_msgid, used)))
assign_msg_lem_example = assign_msg_lem 7 true false used used-Inv

free_msg_lem_example : Freed 100 used (free_msg 100 used)
free_msg_lem_example = free_msg_lem 100 used used-Inv

set_mq_flag_status_lem_example : Kept false 100 used (set_mq_flag_status 40 100 true false used)
set_mq_flag_status_lem_example = set_mq_flag_status_lem 40 100 false used used-Inv

-- The lists after the history
used_lists :
    (used.chmpx_msgs ≡ 101 ∷ [])
    × (used.activated_msgs ≡ 100 ∷ [])
    × (used.assigned_msgs ≡ [])
    × (used.free_msgs ≡ 102 ∷ [])
unfolding assign_msg set_mq_flag_status keep_assigned fill_msgid in_range is_chmpxproc
    initialize_mq_flag not_account_mq_flag is_clientproc is_activated set_head_status
used_lists = (refl, refl, refl, refl)
