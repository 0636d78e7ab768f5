-- ===== src/Merge/Complete.antt =====
-- ChmEventSock::MergeComplete, RequestMergeComplete and MergeDone: the end of a merge.
use chmpx.Base.{ℕ, Bool, true, false, not, ◌&&◌, ◌==◌, if◌then◌else◌, not_empty}
use chmpx.Exec.{Exec, give, refuse, or_refuse, look, attempt, write, demand, ◌>>=◌, ◌>>◌}
use chmpx.Status.{is_up, is_srvin, is_doing, is_done, is_suspend}
use chmpx.Status.Operate.{set_chmpxsts_done}
use chmpx.Ring.{invalid_chmpxid}
use chmpx.Merge.{
  merge_complete, Node, World, success, success_noserver, error_communication,
  error_some_server_status, error_merge_complete, on_man, auto_merges, self_chmpx,
  set_status_of_self, set_base_hash_of_self, touch_self, say, or_deny,
}
use chmpx.Merge.Status.{complete, status_after_complete}
use chmpx.Merge.Send.{
  px_com_send, px_com_send_status_change, px_com_send_slaves_status_change, next_ring_chmpxid,
  tell_status,
}
use chmpx.Merge.Down.{change_down_svr_status_by_merge, check_all_status_for_merge_complete}

module _ (w : World) where
  -- What MergeComplete does once the new status is chosen
  unfoldable pub finish_merge : ℕ → ℕ → Exec Node (Unit {0})
  finish_merge hash status = do
    set_base_hash_of_self w hash
    set_status_of_self w status
    attempt (touch_self w)
    attempt (on_man w.reload)
    n ← look (λ n. n)
    tell_status w (next_ring_chmpxid w n) (self_chmpx n)

  -- MergeComplete
  unfoldable pub do_merge_complete : Exec Node (Unit {0})
  do_merge_complete = do
    attempt (change_down_svr_status_by_merge w complete)
    self ← look self_chmpx
    demand self.has_name
    status ← or_refuse (status_after_complete self.status)
    finish_merge self.pending_hash status

  -- RequestMergeComplete if there is no other server, and if there is one
  unfoldable pub complete_alone : Bool → Exec Node (Unit {0})
  complete_alone asked = do
    write (λ n. record n { is_merge_done_processing = false })
    or_deny do_merge_complete asked error_merge_complete
    say asked success_noserver

  unfoldable pub complete_around : Bool → ℕ → Exec Node (Unit {0})
  complete_around asked chmpxid = do
    attempt (touch_self w)
    self ← look self_chmpx
    px_com_send_status_change w chmpxid self
    or_deny (px_com_send w merge_complete chmpxid) asked error_communication
    say asked success

  -- RequestMergeComplete
  unfoldable pub request_merge_complete : Bool → Exec Node (Unit {0})
  request_merge_complete asked = do
    or_deny check_all_status_for_merge_complete asked error_some_server_status
    n ← look (λ n. n)
    if next_ring_chmpxid w n == invalid_chmpxid
        then complete_alone asked
        else complete_around asked (next_ring_chmpxid w n)

  -- The notices of MergeDone: without another server the slaves alone are told, and if there is no
  -- slave either, the merge is completed at once.
  unfoldable pub tell_done : Node → Exec Node (Unit {0})
  tell_done n =
      if next_ring_chmpxid w n == invalid_chmpxid
      then (do
        told ← attempt (px_com_send_slaves_status_change w (self_chmpx n))
        if told && auto_merges n && not (not_empty n.slaves)
            then request_merge_complete false
            else give tt)
      else (do
        attempt (px_com_send_status_change w (next_ring_chmpxid w n) (self_chmpx n))
        give tt)

  -- The last part of MergeDone
  unfoldable pub after_done : Bool → Exec Node (Unit {0})
  after_done need_complete = do
    n ← look (λ n. n)
    if not (auto_merges n)
        then give tt
        else (if need_complete
            then (do attempt (request_merge_complete false); give tt)
            else write (λ n. record n { is_merge_done_processing = true }))

  unfoldable pub set_done : ℕ → Exec Node (Unit {0})
  set_done status = do
    set_status_of_self w (set_chmpxsts_done status)
    n ← look (λ n. n)
    tell_done n
    after_done (next_ring_chmpxid w n == invalid_chmpxid)

  -- MergeDone
  unfoldable pub merge_done : Exec Node (Unit {0})
  merge_done = do
    self ← look self_chmpx
    demand (is_srvin self.status)
    if not (is_doing self.status)
        then demand (is_done self.status)
        else (if is_up self.status && is_suspend self.status then refuse else set_done self.status)
