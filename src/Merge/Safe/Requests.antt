-- ===== src/Merge/Safe/Requests.antt =====
-- The start of a merge and the requests keep the counts right, and so does any sequence of them.
use chmpx.Base.{
  ℕ, suc, ◌%◌, ◌==◌, not_empty, refl, Bool, true, false, if◌then◌else◌, List, [], ◌∷◌, ◌++◌, arith,
  Bool-cases, inl, inr,
}
use chmpx.Exec.{write}
use chmpx.Exec.Keeps.{Keeps, Keeps-write}
use chmpx.Ring.{Chmpx, invalid_chmpxid}
use chmpx.Man.{Man, Filter, collect, collect_pending, nothing_found, get_servers_by_hash}
use chmpx.Merge.{Packet, Node, World, self_chmpx, error_merge_auto}
use chmpx.Merge.Start.{
  is_pending_exchange_data, get_server_chmpxid_by_base_hash, change_status_before_merge_start,
  collect_merge_servers, run_merge_thread, run_merge, do_merge_start, start_alone, start_around,
  request_merge_start,
}
use chmpx.Merge.Complete.{request_merge_complete, merge_done}
use chmpx.Merge.Service.{
  notice_alone, notice_around, change_self, request_service_in, self_out, complete_out, other_out,
  out_of, request_service_out, pass_around, request_merge_suspend, request_merge_no_suspend,
  pending_service_in, continuous_auto_merge,
}
use chmpx.Merge.Safe.{Ready, Keeps-aside}
use chmpx.Merge.Safe.Shared.{Consistent}
use chmpx.Merge.Safe.Handlers.{packet_rules, request_merge_complete-Ready, merge_done-Ready}

-- The selection of servers for a hash remembers the last one only.
last-Consistent :
    (m : Man) (last : ℕ) → Consistent m → Consistent (record m { last_chmpxid = last })
last-Consistent m last c = record {
  sized = c.sized;
  counted = record { base = c.counted.base; merging = c.counted.merging };
  server = c.server;
}

kept :
    (b c : Bool) (r r' : Bool) (x x' y y' : List ℕ) (m : Man) (last : ℕ)
    → Consistent m
    → (let out : Bool × List ℕ × List ℕ × Man =
          if b
          then (r', x', y', m)
          else (r, x, y, if c then m else record m { last_chmpxid = last }) in
        Consistent out.3)
kept true c r r' x x' y y' m last k = k
kept false true r r' x x' y y' m last k = k
kept false false r r' x x' y y' m last k = last-Consistent m last k

servers-Consistent :
    (hash : ℕ) (f : Filter) (m : Man) → Consistent m → Consistent (get_servers_by_hash hash f m).3
unfolding get_servers_by_hash
servers-Consistent hash f m c =
    let base =
      collect true f (hash % m.bhash_count) m.bhash_count (suc m.replica_count) 0 m.ring
        nothing_found in
    let all_found = collect_pending hash f m base in
    kept (m.bhash_count == 0) (base.last == invalid_chmpxid) (not_empty all_found.chmpxids) false
      all_found.chmpxids [] all_found.hashes [] m base.last c

base_hash-Consistent :
    (hash : ℕ) (m : Man) → Consistent m → Consistent (get_server_chmpxid_by_base_hash hash m).1
unfolding get_server_chmpxid_by_base_hash
base_hash-Consistent hash m c =
    servers-Consistent _ _ (get_servers_by_hash hash _ m).3 (servers-Consistent hash _ m c)

collect-Ready : Keeps Ready collect_merge_servers
unfolding collect_merge_servers
collect-Ready = Keeps-write _ (λ n c. elim (Bool-cases (is_pending_exchange_data n.man)) [
  | inl e ↦ rw e c
  | inr e ↦ rw e (base_hash-Consistent (self_chmpx n).base_hash n.man c)
])

module _ (w : World) (reloads : (m : Man) → Consistent m → Consistent (w.reload m).1) where
  change_before-Ready : Keeps Ready (change_status_before_merge_start w)
  unfolding change_status_before_merge_start
  change_before-Ready = search packet_rules depth 12

  running-Ready :
      (running : Bool) → Keeps Ready (write (λ (n : Node). record n { is_run_merge = running }))
  running-Ready running = Keeps-aside (λ n. record n { is_run_merge = running }) (λ n. refl)

  run_merge_thread-Ready : Keeps Ready (run_merge_thread w)
  unfolding run_merge_thread
  run_merge_thread-Ready = search (packet_rules, running-Ready) depth 12

  done-Ready : Keeps Ready (merge_done w)
  done-Ready = merge_done-Ready w reloads

  run_merge-Ready : Keeps Ready (run_merge w)
  unfolding run_merge
  run_merge-Ready =
      search (packet_rules, run_merge_thread-Ready, done-Ready, collect-Ready) depth 12

  pub do_merge_start-Ready : Keeps Ready (do_merge_start w)
  unfolding do_merge_start
  do_merge_start-Ready =
      search (packet_rules, change_before-Ready, run_merge-Ready, done-Ready) depth 12

  start_alone-Ready : (asked : Bool) → Keeps Ready (start_alone w asked)
  unfolding start_alone
  start_alone-Ready asked = search (packet_rules, do_merge_start-Ready) depth 12

  start_around-Ready : (asked : Bool) (id : ℕ) → Keeps Ready (start_around w asked id)
  unfolding start_around
  start_around-Ready asked id = search packet_rules depth 12

  pub request_merge_start-Ready : (asked : Bool) → Keeps Ready (request_merge_start w asked)
  unfolding request_merge_start
  request_merge_start-Ready asked =
      search (packet_rules, start_alone-Ready, start_around-Ready) depth 12

  notice_alone-Ready : (asked : Bool) (server : Chmpx) → Keeps Ready (notice_alone w asked server)
  unfolding notice_alone
  notice_alone-Ready asked server = search packet_rules depth 12

  notice_around-Ready :
      (asked : Bool) (id : ℕ) (server : Chmpx) → Keeps Ready (notice_around w asked id server)
  unfolding notice_around
  notice_around-Ready asked id server = search packet_rules depth 12

  change_self-Ready : (asked : Bool) (status : ℕ) → Keeps Ready (change_self w asked status)
  unfolding change_self
  change_self-Ready asked status = search packet_rules depth 12

  pub request_service_in-Ready : (asked : Bool) → Keeps Ready (request_service_in w asked)
  unfolding request_service_in
  request_service_in-Ready asked =
      search (packet_rules, notice_alone-Ready, notice_around-Ready, change_self-Ready) depth 12

  self_out-Ready : (asked : Bool) (status : ℕ) → Keeps Ready (self_out w asked status)
  unfolding self_out
  self_out-Ready asked status =
      search (packet_rules, notice_alone-Ready, notice_around-Ready, change_self-Ready) depth 12

  auto_answer-Ready :
      (asked : Bool)
      → Keeps Ready (
          write (λ (n : Node).
            if asked then record n { answer = n.answer ++ error_merge_auto ∷ [] } else n))
  auto_answer-Ready asked =
      Keeps-aside
        (λ n. if asked then record n { answer = n.answer ++ error_merge_auto ∷ [] } else n)
        (λ n. ground arith)

  complete-Ready : (asked : Bool) → Keeps Ready (request_merge_complete w asked)
  complete-Ready asked = request_merge_complete-Ready w reloads asked

  complete_out-Ready : (asked : Bool) → Keeps Ready (complete_out w asked)
  unfolding complete_out
  complete_out-Ready asked = search (packet_rules, complete-Ready, auto_answer-Ready) depth 12

  other_out-Ready : (asked : Bool) (id status : ℕ) → Keeps Ready (other_out w asked id status)
  unfolding other_out
  other_out-Ready asked id status =
      search (packet_rules, notice_alone-Ready, notice_around-Ready, complete_out-Ready) depth 16

  out_of-Ready : (asked : Bool) (id : ℕ) (n : Node) → Keeps Ready (out_of w asked id n)
  unfolding out_of
  out_of-Ready asked id n =
      search (packet_rules, self_out-Ready, other_out-Ready, complete_out-Ready) depth 12

  pub request_service_out-Ready :
      (id : ℕ) (asked : Bool) → Keeps Ready (request_service_out w id asked)
  unfolding request_service_out
  request_service_out-Ready id asked = search (packet_rules, out_of-Ready) depth 12

  pass_around-Ready : (asked : Bool) (p : ℕ → Packet) → Keeps Ready (pass_around w asked p)
  unfolding pass_around
  pass_around-Ready asked p = search packet_rules depth 12

  suspend_flags-Ready :
      Keeps Ready
        (write (λ (n : Node). record n { is_auto_merge_suspend = true; startup_servicein = false }))
  suspend_flags-Ready =
      Keeps-aside (λ n. record n { is_auto_merge_suspend = true; startup_servicein = false })
        (λ n. refl)

  nosuspend_flag-Ready :
      Keeps Ready (write (λ (n : Node). record n { is_auto_merge_suspend = false }))
  nosuspend_flag-Ready = Keeps-aside (λ n. record n { is_auto_merge_suspend = false }) (λ n. refl)

  startup_flag-Ready : Keeps Ready (write (λ (n : Node). record n { startup_servicein = false }))
  startup_flag-Ready = Keeps-aside (λ n. record n { startup_servicein = false }) (λ n. refl)

  pub request_merge_suspend-Ready : (asked : Bool) → Keeps Ready (request_merge_suspend w asked)
  unfolding request_merge_suspend
  request_merge_suspend-Ready asked =
      search (packet_rules, suspend_flags-Ready, pass_around-Ready) depth 12

  pub request_merge_no_suspend-Ready :
      (asked : Bool) → Keeps Ready (request_merge_no_suspend w asked)
  unfolding request_merge_no_suspend
  request_merge_no_suspend-Ready asked =
      search (packet_rules, nosuspend_flag-Ready, pass_around-Ready) depth 12

  pending_service_in-Ready : Keeps Ready (pending_service_in w)
  unfolding pending_service_in
  pending_service_in-Ready =
      search (packet_rules, startup_flag-Ready, request_service_in-Ready) depth 12

  pub continuous_auto_merge-Ready : Keeps Ready (continuous_auto_merge w)
  unfolding continuous_auto_merge
  continuous_auto_merge-Ready =
      search (packet_rules, pending_service_in-Ready, request_merge_start-Ready) depth 12
