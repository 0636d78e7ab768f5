-- ===== src/Merge/Safe/Handlers.antt =====
-- The packets, the servers that are down, the end of a merge and its abortion keep the counts right.
use chmpx.Base.{ℕ, refl, Bool, true, false, ◌&&◌, if◌then◌else◌, arith, List, [], ◌∷◌, ◌++◌}
use chmpx.Exec.{write}
use chmpx.Exec.Keeps.{Keeps, Keeps-give}
use chmpx.Ring.{Chmpx}
use chmpx.Man.{Man}
use chmpx.Merge.{Packet, Node, World, on_man}
use chmpx.Merge.Status.{DownMerge, start, complete, abort}
use chmpx.Merge.Send.{
  send, send_to_slaves, px_com_send_slaves_status_change, px_com_send_status_change,
  px_com_send_status_confirm, px_com_send, tell_status,
}
use chmpx.Merge.Down.{
  change_down_svr, tell_down_svr, change_down_svrs, change_down_svr_status_by_merge,
  check_all_status_for_merge_start, check_all_status_for_merge_complete,
}
use chmpx.Merge.Complete.{
  finish_merge, do_merge_complete, complete_alone, complete_around, request_merge_complete,
  tell_done, after_done, set_done, merge_done,
}
use chmpx.Merge.Abort.{change_self_status, do_merge_abort, request_merge_abort, do_suspend}
use chmpx.Merge.Safe.{Ready, Keeps-aside, Keeps-on_man, ready_rules}
use chmpx.Merge.Safe.Shared.{Consistent}

module _ (w : World) where
  sent-Ready :
      (p : Packet) → Keeps Ready (write (λ (n : Node). record n { sent = n.sent ++ p ∷ [] }))
  sent-Ready p = Keeps-aside (λ n. record n { sent = n.sent ++ p ∷ [] }) (λ n. refl)

  send-Ready : (p : Packet) → Keeps Ready (send w p)
  unfolding send
  send-Ready p = search (ready_rules, sent-Ready) depth 12

  send_to_slaves-Ready : (server : Chmpx) (ids : List ℕ) → Keeps Ready (send_to_slaves w server ids)
  unfolding send_to_slaves
  send_to_slaves-Ready server [] = Keeps-give tt
  send_to_slaves-Ready server (id ∷ rest) =
      let ih = send_to_slaves-Ready server rest in search (ready_rules, send-Ready) depth 12

  pub slaves-Ready : (server : Chmpx) → Keeps Ready (px_com_send_slaves_status_change w server)
  unfolding px_com_send_slaves_status_change
  slaves-Ready server = search (ready_rules, send_to_slaves-Ready) depth 12

  pub status_change-Ready :
      (id : ℕ) (server : Chmpx) → Keeps Ready (px_com_send_status_change w id server)
  unfolding px_com_send_status_change
  status_change-Ready id server = search (ready_rules, send-Ready, slaves-Ready) depth 12

  pub status_confirm-Ready :
      (id : ℕ) (servers : List Chmpx) → Keeps Ready (px_com_send_status_confirm w id servers)
  unfolding px_com_send_status_confirm
  status_confirm-Ready id servers = search (ready_rules, send-Ready) depth 12

  pub px_com_send-Ready : (packet : ℕ → Packet) (id : ℕ) → Keeps Ready (px_com_send w packet id)
  unfolding px_com_send
  px_com_send-Ready packet id = search (ready_rules, send-Ready) depth 12

  pub tell_status-Ready : (id : ℕ) (server : Chmpx) → Keeps Ready (tell_status w id server)
  unfolding tell_status
  tell_status-Ready id server = search (ready_rules, slaves-Ready, status_change-Ready) depth 12

  change_down_svr-Ready : (type : DownMerge) (id : ℕ) → Keeps Ready (change_down_svr w type id)
  unfolding change_down_svr
  change_down_svr-Ready start id = search ready_rules depth 12
  change_down_svr-Ready complete id = search ready_rules depth 12
  change_down_svr-Ready abort id = search ready_rules depth 12

  tell_down_svr-Ready : (to id : ℕ) → Keeps Ready (tell_down_svr w to id)
  unfolding tell_down_svr
  tell_down_svr-Ready to id = search (ready_rules, tell_status-Ready) depth 12

  change_down_svrs-Ready :
      (type : DownMerge) (to : ℕ) (servers : List Chmpx)
      → Keeps Ready (change_down_svrs w type to servers)
  unfolding change_down_svrs
  change_down_svrs-Ready type to [] = Keeps-give tt
  change_down_svrs-Ready type to (server ∷ rest) =
      let ih = change_down_svrs-Ready type to rest in
      search (ready_rules, change_down_svr-Ready, tell_down_svr-Ready) depth 12

  pub down-Ready : (type : DownMerge) → Keeps Ready (change_down_svr_status_by_merge w type)
  unfolding change_down_svr_status_by_merge
  down-Ready type = search (ready_rules, change_down_svrs-Ready) depth 12

pub check_start-Ready : Keeps Ready check_all_status_for_merge_start
unfolding check_all_status_for_merge_start
check_start-Ready = search ready_rules depth 12

pub check_complete-Ready : Keeps Ready check_all_status_for_merge_complete
unfolding check_all_status_for_merge_complete
check_complete-Ready = search ready_rules depth 12

pub ruleset packet_rules = (
  ready_rules, slaves-Ready, status_change-Ready, status_confirm-Ready, px_com_send-Ready,
  tell_status-Ready, down-Ready, check_start-Ready, check_complete-Ready,
)

module _ (w : World) (reloads : (m : Man) → Consistent m → Consistent (w.reload m).1) where
  reload-Ready : Keeps Ready (on_man w.reload)
  reload-Ready = Keeps-on_man w.reload reloads

  finish_merge-Ready : (hash status : ℕ) → Keeps Ready (finish_merge w hash status)
  unfolding finish_merge
  finish_merge-Ready hash status = search (packet_rules, reload-Ready) depth 12

  pub do_merge_complete-Ready : Keeps Ready (do_merge_complete w)
  unfolding do_merge_complete
  do_merge_complete-Ready = search (packet_rules, finish_merge-Ready) depth 12

  not_processing-Ready :
      Keeps Ready (write (λ (n : Node). record n { is_merge_done_processing = false }))
  not_processing-Ready =
      Keeps-aside (λ n. record n { is_merge_done_processing = false }) (λ n. refl)

  processing-Ready :
      Keeps Ready (write (λ (n : Node). record n { is_merge_done_processing = true }))
  processing-Ready = Keeps-aside (λ n. record n { is_merge_done_processing = true }) (λ n. refl)

  complete_alone-Ready : (asked : Bool) → Keeps Ready (complete_alone w asked)
  unfolding complete_alone
  complete_alone-Ready asked =
      search (packet_rules, not_processing-Ready, do_merge_complete-Ready) depth 12

  complete_around-Ready : (asked : Bool) (id : ℕ) → Keeps Ready (complete_around w asked id)
  unfolding complete_around
  complete_around-Ready asked id = search packet_rules depth 12

  pub request_merge_complete-Ready : (asked : Bool) → Keeps Ready (request_merge_complete w asked)
  unfolding request_merge_complete
  request_merge_complete-Ready asked =
      search (packet_rules, complete_alone-Ready, complete_around-Ready) depth 12

  tell_done-Ready : (n : Node) → Keeps Ready (tell_done w n)
  unfolding tell_done
  tell_done-Ready n = search (packet_rules, request_merge_complete-Ready) depth 12

  after_done-Ready : (need : Bool) → Keeps Ready (after_done w need)
  unfolding after_done
  after_done-Ready need =
      search (packet_rules, request_merge_complete-Ready, processing-Ready) depth 12

  set_done-Ready : (status : ℕ) → Keeps Ready (set_done w status)
  unfolding set_done
  set_done-Ready status = search (packet_rules, tell_done-Ready, after_done-Ready) depth 12

  pub merge_done-Ready : Keeps Ready (merge_done w)
  unfolding merge_done
  merge_done-Ready = search (packet_rules, set_done-Ready) depth 12

module _ (w : World) where
  pub change_self_status-Ready : (status : ℕ) → Keeps Ready (change_self_status w status)
  unfolding change_self_status
  change_self_status-Ready status = search packet_rules depth 12

  stop-Ready : Keeps Ready (
      write (λ (n : Node).
        if n.is_do_merge && w.has_thread then record n { is_run_merge = false } else n))
  stop-Ready =
      Keeps-aside
        (λ n. if n.is_do_merge && w.has_thread then record n { is_run_merge = false } else n)
        (λ n. ground arith)

  pub do_merge_abort-Ready : Keeps Ready (do_merge_abort w)
  unfolding do_merge_abort
  do_merge_abort-Ready = search (packet_rules, stop-Ready, change_self_status-Ready) depth 12

  pub request_merge_abort-Ready : (asked : Bool) → Keeps Ready (request_merge_abort w asked)
  unfolding request_merge_abort
  request_merge_abort-Ready asked = search (packet_rules, do_merge_abort-Ready) depth 12

  pub do_suspend-Ready : Keeps Ready (do_suspend w)
  unfolding do_suspend
  do_suspend-Ready =
      search (packet_rules, change_self_status-Ready, request_merge_abort-Ready) depth 12
