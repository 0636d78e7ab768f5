-- ===== src/Merge/Start.antt =====
-- ChmEventSock::ChangeStatusBeforeMergeStart, MergeStart and RequestMergeStart: the start of a
-- merge, with the servers that data is fetched from (lib/chmimdata.cc).
use chmpx.Base.{
  ℕ, ◌+◌, ◌-◌, Bool, true, false, not, ◌||◌, ◌==◌, leb, if◌then◌else◌, List, [], ◌∷◌, not_empty,
}
use chmpx.Exec.{Exec, give, refuse, or_refuse, look, attempt, write, demand, ◌>>=◌, ◌>>◌}
use chmpx.Ring.{invalid_chmpxid, pending_hash_count, get_chmpxids_from}
use chmpx.Man.{Man, Filter, push_new, get_servers_by_hash}
use chmpx.Merge.{
  Node, World, success, success_noserver, error_communication, error_some_server_status,
  error_merge_start, int_error_notgetchmpx, get_chmpx_svrs, self_chmpx, set_status_of_self,
  touch_self, say, deny, or_deny,
}
use chmpx.Merge.Status.{start, status_before_merge}
use chmpx.Merge.Send.{px_com_send_status_confirm, next_ring_chmpxid, tell_status}
use chmpx.Merge.Down.{change_down_svr_status_by_merge, check_all_status_for_merge_start}
use chmpx.Merge.Complete.{merge_done}

-- ChmIMData::IsPendingExchangeData, which is also the test of the hashes before a merge
unfoldable pub is_pending_exchange_data : Man → Bool
is_pending_exchange_data m =
    not ((m.ring.store m.self).base_hash == (m.ring.store m.self).pending_hash)
    || not (m.bhash_count == pending_hash_count m.ring)

-- ChmIMData::GetServerChmpxIdForMerge
unfoldable pub get_server_chmpxid_for_merge : Man → List ℕ
get_server_chmpxid_for_merge m = get_chmpxids_from false true true m.ring.store m.ring.servers

unfoldable pub push_all_new : List ℕ → List ℕ → List ℕ
push_all_new [] chmpxids = chmpxids
push_all_new (x ∷ xs) chmpxids = push_all_new xs (push_new x chmpxids)

abbrev for_base_hash : Filter
for_base_hash = record { with_pending = false; without_down = true; without_suspend = true }

-- ChmIMData::GetServerChmpxIdByBaseHash: the servers of a base hash and of the one as many places
-- before it as there are replicas
unfoldable pub get_server_chmpxid_by_base_hash : ℕ → Man → List ℕ × Man
get_server_chmpxid_by_base_hash basehash m =
    let another =
      if leb m.replica_count basehash
      then basehash - m.replica_count
      else (basehash + m.bhash_count) - m.replica_count in
    let (found, chmpxids, hashes, m1) = get_servers_by_hash basehash for_base_hash m in
    let (found', another_chmpxids, hashes', m2) = get_servers_by_hash another for_base_hash m1 in
    (push_all_new another_chmpxids chmpxids, m2)

-- The keys of mergeidmap: all but the own id
unfoldable pub merge_ids : ℕ → List ℕ → List ℕ → List ℕ
merge_ids self [] ids = ids
merge_ids self (x ∷ xs) ids = merge_ids self xs (if self == x then ids else push_new x ids)

-- The servers that MergeStart collects
unfoldable pub collect_merge_servers : Exec Node (Unit {0})
collect_merge_servers = write (λ n.
    let self = self_chmpx n in
    let (found, m) =
      if is_pending_exchange_data n.man
      then (get_server_chmpxid_for_merge n.man, n.man)
      else get_server_chmpxid_by_base_hash self.base_hash n.man in
    record n { man = m; mergeidmap = merge_ids self.chmpxid found [] })

module _ (w : World) where
  -- ChangeStatusBeforeMergeStart
  unfoldable pub change_status_before_merge_start : Exec Node (Unit {0})
  change_status_before_merge_start = do
    n ← look (λ n. n)
    demand (not n.man.is_operating)
    status ←
        or_refuse (status_before_merge (not (is_pending_exchange_data n.man)) (self_chmpx n).status)
    set_status_of_self w status
    n' ← look (λ n. n)
    attempt (tell_status w (next_ring_chmpxid w n') (self_chmpx n'))
    give tt

  -- The merge thread is woken up.
  unfoldable pub run_merge_thread : Exec Node (Unit {0})
  run_merge_thread = do
    write (λ n. record n { is_run_merge = true })
    if w.wakes_thread then give tt else do write (λ n. record n { is_run_merge = false }); refuse

  unfoldable pub run_merge : Exec Node (Unit {0})
  run_merge = do
    n ← look (λ n. n)
    demand (not n.is_run_merge)
    demand w.has_thread
    if not (self_chmpx n).has_name then merge_done w else do
      collect_merge_servers
      n' ← look (λ n. n)
      if not_empty n'.mergeidmap then run_merge_thread else merge_done w

  -- MergeStart
  unfoldable pub do_merge_start : Exec Node (Unit {0})
  do_merge_start = do
    changed ← attempt change_status_before_merge_start
    if not changed then give tt else do
      attempt (change_down_svr_status_by_merge w start)
      n ← look (λ n. n)
      if n.is_do_merge then run_merge else merge_done w

  unfoldable pub start_alone : Bool → Exec Node (Unit {0})
  start_alone asked = do or_deny do_merge_start asked error_merge_start; say asked success_noserver

  -- GetChmpxSvrs fails if there is no server.
  unfoldable pub start_around : Bool → ℕ → Exec Node (Unit {0})
  start_around asked chmpxid = do
    attempt (touch_self w)
    n ← look (λ n. n)
    if not_empty n.man.ring.servers
        then (do
          servers ← get_chmpx_svrs
          or_deny (px_com_send_status_confirm w chmpxid servers) asked error_communication
          say asked success)
        else deny asked int_error_notgetchmpx

  -- RequestMergeStart
  unfoldable pub request_merge_start : Bool → Exec Node (Unit {0})
  request_merge_start asked = do
    or_deny check_all_status_for_merge_start asked error_some_server_status
    n ← look (λ n. n)
    if next_ring_chmpxid w n == invalid_chmpxid
        then start_alone asked
        else start_around asked (next_ring_chmpxid w n)
