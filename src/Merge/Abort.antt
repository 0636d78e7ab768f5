-- ===== src/Merge/Abort.antt =====
-- ChmEventSock::MergeAbort, RequestMergeAbort and DoSuspend: a merge is stopped.
pub mod Own
pub mod Stored
mod Tests
use chmpx.Base.{ℕ, Bool, false, ◌&&◌, ◌==◌, if◌then◌else◌}
use chmpx.Exec.{Exec, give, look, attempt, write, demand, ◌>>=◌, ◌>>◌}
use chmpx.Ring.{invalid_chmpxid}
use chmpx.Merge.{
  merge_abort, Node, World, success, success_noserver, error_communication, error_merge_abort,
  self_chmpx, set_status_of_self, update_pending_hash, say, or_deny,
}
use chmpx.Merge.Status.{abort, status_after_abort, status_in_suspend}
use chmpx.Merge.Send.{px_com_send, next_ring_chmpxid, tell_status}
use chmpx.Merge.Down.{change_down_svr_status_by_merge}

module _ (w : World) where
  -- A new own status, the new pending hash values, and the notice: what both end with
  unfoldable pub change_self_status : ℕ → Exec Node (Unit {0})
  change_self_status status = do
    set_status_of_self w status
    update_pending_hash w
    n ← look (λ n. n)
    tell_status w (next_ring_chmpxid w n) (self_chmpx n)

  -- MergeAbort
  unfoldable pub do_merge_abort : Exec Node (Unit {0})
  do_merge_abort = do
    write (λ n. if n.is_do_merge && w.has_thread then record n { is_run_merge = false } else n)
    attempt (demand w.tells_clients)
    self ← look self_chmpx
    change_self_status (status_after_abort self.status)
    attempt (change_down_svr_status_by_merge w abort)
    give tt

  -- RequestMergeAbort; it succeeds also if MergeAbort fails.
  unfoldable pub request_merge_abort : Bool → Exec Node (Unit {0})
  request_merge_abort asked = do
    n ← look (λ n. n)
    if next_ring_chmpxid w n == invalid_chmpxid
        then (do
          done ← attempt do_merge_abort
          say asked (if done then success_noserver else error_merge_abort))
        else (do
          or_deny (px_com_send w merge_abort (next_ring_chmpxid w n)) asked error_communication
          say asked success)

  -- DoSuspend, in the chmpx process
  unfoldable pub do_suspend : Exec Node (Unit {0})
  do_suspend = do
    n ← look (λ n. n)
    if status_in_suspend (self_chmpx n).status == (self_chmpx n).status then give tt else (do
      change_self_status (status_in_suspend (self_chmpx n).status)
      if n.man.is_operating then request_merge_abort false else give tt)
