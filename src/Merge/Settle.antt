-- ===== src/Merge/Settle.antt =====
-- lib/chmeventsock.cc, PxComReceiveMergeStart and PxComReceiveMergeComplete: when a packet has come
-- back to the server that sent it, that server changes the status of the servers that are down.
pub mod Moved
pub mod Quiet
pub mod Kin
pub mod Step
pub mod Ends
mod Tests
use chmpx.Base.{
  ℕ, zero, suc, Bool, true, false, not, ◌&&◌, ◌==◌, if◌then◌else◌, Option, none, some, List, [],
  ◌∷◌, length,
}
use chmpx.Exec.{Exec, give, refuse, look, write, demand, ◌>>=◌, ◌>>◌}
use chmpx.Status.{srvin_down_delpending, srvin_down_deleted, srvout_down_normal}
use chmpx.Ring.{Chmpx, invalid_chmpxid}
use chmpx.Ring.Walk.{find_by_status_from}
use chmpx.Man.{Man}
use chmpx.Merge.{Node, World, self_chmpx, get_chmpx_svr, set_status_of}
use chmpx.Merge.Send.{next_ring_chmpxid, tell_status}
use chmpx.Merge.Receive.{Onward, next_of, complete_by_status}

-- GetChmpxIdByStatus without a part match
abbrev pub id_by_status : ℕ → Man → ℕ
id_by_status status m = find_by_status_from status false m.ring.store m.ring.servers

module _ (w : World) where
  -- The while-loop over the servers of a status; `false` tells that the fuel was not enough.
  unfoldable pub settle : ℕ → ℕ → ℕ → ℕ → Exec Node Bool
  settle zero old status next = give false
  settle (suc fuel) old status next = do
    n ← look (λ n. n)
    if id_by_status old n.man == invalid_chmpxid then give true else do
      set_status_of w (id_by_status old n.man) status
      server ← get_chmpx_svr (id_by_status old n.man)
      tell_status w next server
      settle fuel old status next

  -- Every round changes the status of one server.
  unfoldable pub settle_all : ℕ → ℕ → Exec Node Bool
  settle_all old status = do
    n ← look (λ n. n)
    settle (suc (length n.man.ring.servers)) old status (next_ring_chmpxid w n)

  -- PxComReceiveMergeStart
  unfoldable pub receive_merge_start : ℕ → Bool → Exec Node (Option Onward)
  receive_merge_start dept is_success = do
    n ← look (λ n. n)
    if dept == (self_chmpx n).chmpxid
        then (if is_success
            then (do settle_all srvin_down_delpending srvin_down_deleted; give none)
            else give none)
        else (do
          found ← next_of w dept
          give (elim found [
            | none ↦ none
            | some next ↦ some (record { next = next; dept = dept; is_success = is_success })
          ]))

  -- A packet that asks to complete a merge as it is passed on, with `is_completed`
  abbrev pub completed_by : ℕ → ℕ → Bool → ℕ → Option Onward × Bool
  completed_by dept next is_success status =
      let (still, is_completed) = complete_by_status status in
      if is_success
      then (some (record { next = next; dept = dept; is_success = still }), is_completed)
      else (some (record { next = next; dept = dept; is_success = false }), false)

  -- PxComReceiveMergeComplete: the packet that is passed on, and `is_completed`
  unfoldable pub receive_merge_complete : ℕ → Bool → Exec Node (Option Onward × Bool)
  receive_merge_complete dept is_success = do
    n ← look (λ n. n)
    if dept == (self_chmpx n).chmpxid
        then (if is_success
            then (do settle_all srvin_down_deleted srvout_down_normal; give (none, true))
            else give (none, false))
        else (do
          found ← next_of w dept
          give (elim found [
            | none ↦ (none, false)
            | some next ↦ completed_by dept next is_success (self_chmpx n).status
          ]))
