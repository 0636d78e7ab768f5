-- ===== src/Merge/Service.antt =====
-- ChmEventSock::RequestServiceIn, RequestServiceOut, RequestMergeSuspend, RequestMergeNoSuspend and
-- ContinuousAutoMerge: the requests of the control port and of the automatic merge.
pub mod Alone
use chmpx.Base.{ℕ, Bool, true, false, not, ◌&&◌, ◌||◌, ◌==◌, if◌then◌else◌, List, [], ◌∷◌, ◌++◌}
use chmpx.Exec.{Exec, give, refuse, look, attempt, write, demand, ◌>>=◌, ◌>>◌}
use chmpx.Status.{is_srvout, is_up, is_noact, is_suspend}
use chmpx.Status.Change.{change_to_srvin, change_to_srvout}
use chmpx.Ring.{Chmpx, invalid_chmpxid}
use chmpx.Merge.{
  Packet, Answer, Node, World, merge_suspend, merge_nosuspend, success, success_status_notice,
  success_already_serviceout, error_command_on_server, error_operating, error_status_not_allowed,
  error_change_status, error_status_notice, error_communication, error_merge_auto, auto_merges,
  self_chmpx, server_status, get_chmpx_svr, set_status_of_self, set_status_of, update_pending_hash,
  say, deny, or_deny,
}
use chmpx.Merge.Status.{is_nothing}
use chmpx.Merge.Send.{
  px_com_send, px_com_send_slaves_status_change, px_com_send_status_change, next_ring_chmpxid,
}
use chmpx.Merge.Complete.{request_merge_complete}
use chmpx.Merge.Start.{request_merge_start}

module _ (w : World) where
  -- The notice of a status at the end of a request
  unfoldable pub notice_alone : Bool → Chmpx → Exec Node (Unit {0})
  notice_alone asked server = do
    or_deny (px_com_send_slaves_status_change w server) asked error_status_notice
    say asked success_status_notice

  unfoldable pub notice_around : Bool → ℕ → Chmpx → Exec Node (Unit {0})
  notice_around asked chmpxid server =
      or_deny (px_com_send_status_change w chmpxid server) asked error_status_notice

  unfoldable pub change_self : Bool → ℕ → Exec Node (Unit {0})
  change_self asked status = do
    or_deny (set_status_of_self w status) asked error_change_status
    or_deny (update_pending_hash w) asked error_change_status

  -- RequestServiceIn
  unfoldable pub request_service_in : Bool → Exec Node (Unit {0})
  request_service_in asked = do
    n ← look (λ n. n)
    if not n.is_server_mode
        then deny asked error_command_on_server
        else (if n.man.is_operating
            then deny asked error_operating
            else (if change_to_srvin (self_chmpx n).status == (self_chmpx n).status
                then deny asked error_status_not_allowed
                else (do
                  change_self asked (change_to_srvin (self_chmpx n).status)
                  n' ← look (λ n. n)
                  if next_ring_chmpxid w n' == invalid_chmpxid
                      then notice_alone asked (self_chmpx n')
                      else notice_around asked (next_ring_chmpxid w n') (self_chmpx n'))))

  -- RequestServiceOut for the own server. The call after the first test is made in any case.
  unfoldable pub self_out : Bool → ℕ → Exec Node (Unit {0})
  self_out asked status =
      if change_to_srvout status == status then deny asked error_status_not_allowed else do
        change_self asked (change_to_srvout status)
        n ← look (λ n. n)
        if next_ring_chmpxid w n == invalid_chmpxid
            then notice_alone asked (self_chmpx n)
            else give tt
        notice_around asked (next_ring_chmpxid w n) (self_chmpx n)

  -- The last part of RequestServiceOut
  unfoldable pub complete_out : Bool → Exec Node (Unit {0})
  complete_out asked = do
    n ← look (λ n. n)
    done ← (if auto_merges n then attempt (request_merge_complete w asked) else give true)
    if done then say asked success else do
      write (λ n. if asked then record n { answer = n.answer ++ error_merge_auto ∷ [] } else n)
      refuse

  -- RequestServiceOut for another server
  unfoldable pub other_out : Bool → ℕ → ℕ → Exec Node (Unit {0})
  other_out asked chmpxid status =
      if change_to_srvout status == status then say asked success_already_serviceout else do
        or_deny (set_status_of w chmpxid (change_to_srvout status)) asked error_change_status
        or_deny (update_pending_hash w) asked error_change_status
        found ← attempt (get_chmpx_svr chmpxid)
        if found then give tt else deny asked error_status_notice
        server ← get_chmpx_svr chmpxid
        n ← look (λ n. n)
        if next_ring_chmpxid w n == invalid_chmpxid
            then notice_alone asked server
            else notice_around asked (next_ring_chmpxid w n) server
        complete_out asked

  unfoldable pub out_of : Bool → ℕ → Node → Exec Node (Unit {0})
  out_of asked chmpxid n =
      if (self_chmpx n).chmpxid == chmpxid
      then (do self_out asked (server_status chmpxid n.man); complete_out asked)
      else other_out asked chmpxid (server_status chmpxid n.man)

  -- RequestServiceOut
  unfoldable pub request_service_out : ℕ → Bool → Exec Node (Unit {0})
  request_service_out chmpxid asked = do
    n ← look (λ n. n)
    if not n.is_server_mode
        then deny asked error_command_on_server
        else (if n.man.is_operating
            then deny asked error_operating
            else out_of asked
                (if chmpxid == invalid_chmpxid then (self_chmpx n).chmpxid else chmpxid) n)

  -- The packet at the end of RequestMergeSuspend and RequestMergeNoSuspend
  unfoldable pub pass_around : Bool → (ℕ → Packet) → Exec Node (Unit {0})
  pass_around asked packet = do
    n ← look (λ n. n)
    if next_ring_chmpxid w n == invalid_chmpxid
        then give tt
        else or_deny (px_com_send w packet (next_ring_chmpxid w n)) asked error_communication
    say asked success

  -- RequestMergeSuspend; ChmIMData::SuspendAutoMerge sets the flag.
  unfoldable pub request_merge_suspend : Bool → Exec Node (Unit {0})
  request_merge_suspend asked = do
    n ← look (λ n. n)
    if not n.is_server_mode then deny asked error_command_on_server else do
      write (λ n. record n { is_auto_merge_suspend = true; startup_servicein = false })
      pass_around asked merge_suspend

  -- RequestMergeNoSuspend; ChmIMData::ResetAutoMerge clears the flag.
  unfoldable pub request_merge_no_suspend : Bool → Exec Node (Unit {0})
  request_merge_no_suspend asked = do
    n ← look (λ n. n)
    if not n.is_server_mode then deny asked error_command_on_server else do
      write (λ n. record n { is_auto_merge_suspend = false })
      pass_around asked merge_nosuspend

  -- The pending request for service at the startup; `false` ends ContinuousAutoMerge.
  unfoldable pub pending_service_in : Exec Node Bool
  pending_service_in = do
    n ← look (λ n. n)
    let s = (self_chmpx n).status
    if not n.startup_servicein
        then give true
        else (if is_srvout s && is_up s && is_noact s && is_nothing s
            then (if is_suspend s then give false else (do
              joined ← attempt (request_service_in false)
              if joined
                  then (do write (λ n. record n { startup_servicein = false }); give true)
                  else give false))
            else (do write (λ n. record n { startup_servicein = false }); give true))

  -- ContinuousAutoMerge
  unfoldable pub continuous_auto_merge : Exec Node (Unit {0})
  continuous_auto_merge = do
    n ← look (λ n. n)
    demand n.is_server_mode
    if not (auto_merges n) && not n.startup_servicein
        then give tt
        else (if n.man.is_operating then give tt else (do
          go_on ← pending_service_in
          if go_on then request_merge_start w false else give tt))
