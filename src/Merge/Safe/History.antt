-- ===== src/Merge/Safe/History.antt =====
-- Any history of the handlers keeps the counts of the shared memory right.
use chmpx.Base.{List, [], ◌∷◌}
use chmpx.Exec.Keeps.{Keeps, keeps_rules}
use chmpx.Merge.Safe.Packets.{
  receive_merge_start-Ready, receive_merge_complete-Ready, receive_merge_abort-Ready,
  receive_merge_suspend-Ready, receive_merge_no_suspend-Ready,
}
use chmpx.Man.{Man}
use chmpx.Merge.{Node, World}
use chmpx.Merge.Calls.{
  Call, start, done, complete, abort, suspend, continue, ask_start, ask_complete, ask_abort,
  ask_service_in, ask_suspend, ask_no_suspend, ask_service_out, get_start, get_complete, get_abort,
  get_suspend, get_no_suspend, perform, serve,
}
use chmpx.Merge.Safe.{Ready}
use chmpx.Merge.Safe.Shared.{Consistent}
use chmpx.Merge.Safe.Handlers.{
  do_merge_complete-Ready, request_merge_complete-Ready, merge_done-Ready, do_merge_abort-Ready,
  request_merge_abort-Ready, do_suspend-Ready,
}
use chmpx.Merge.Safe.Requests.{
  do_merge_start-Ready, request_merge_start-Ready, request_service_in-Ready,
  request_service_out-Ready, request_merge_suspend-Ready, request_merge_no_suspend-Ready,
  continuous_auto_merge-Ready,
}

-- ReloadConfiguration keeps the counts right, at each call of a history.
abbrev pub Reloads : List (World × Call) → Type 0
Reloads [] = Unit
Reloads ((w, call) ∷ rest) = ((m : Man) → Consistent m → Consistent (w.reload m).1) × Reloads rest

perform-Ready :
    (w : World)
    → ((m : Man) → Consistent m → Consistent (w.reload m).1)
    → (call : Call) → Keeps Ready (perform w call)
unfolding perform
perform-Ready w reloads start = do_merge_start-Ready w reloads
perform-Ready w reloads done = merge_done-Ready w reloads
perform-Ready w reloads complete = do_merge_complete-Ready w reloads
perform-Ready w reloads abort = do_merge_abort-Ready w
perform-Ready w reloads suspend = do_suspend-Ready w
perform-Ready w reloads continue = continuous_auto_merge-Ready w reloads
perform-Ready w reloads (ask_start asked) = request_merge_start-Ready w reloads asked
perform-Ready w reloads (ask_complete asked) = request_merge_complete-Ready w reloads asked
perform-Ready w reloads (ask_abort asked) = request_merge_abort-Ready w asked
perform-Ready w reloads (ask_service_in asked) = request_service_in-Ready w reloads asked
perform-Ready w reloads (ask_suspend asked) = request_merge_suspend-Ready w reloads asked
perform-Ready w reloads (ask_no_suspend asked) = request_merge_no_suspend-Ready w reloads asked
perform-Ready w reloads (ask_service_out id asked) = request_service_out-Ready w reloads id asked
perform-Ready w reloads (get_start dept ok) = search (keeps_rules, receive_merge_start-Ready)
perform-Ready w reloads (get_complete dept ok) = search (keeps_rules, receive_merge_complete-Ready)
perform-Ready w reloads (get_abort dept ok) = search (keeps_rules, receive_merge_abort-Ready)
perform-Ready w reloads (get_suspend dept ok) = search (keeps_rules, receive_merge_suspend-Ready)
perform-Ready w reloads (get_no_suspend dept ok) =
    search (keeps_rules, receive_merge_no_suspend-Ready)

-- Take a server whose shared memory is consistent: every node has a name, stands in the list once
-- and has room in the hash array, and the count of the base ring and the flag of a merge agree with
-- the statuses. After any history of the handlers of a merge and of service requests, whatever
-- packets and connections fail meanwhile, it is consistent again, provided that reloading the
-- configuration keeps it so.
pub serve-Consistent :
    (history : List (World × Call)) (n : Node)
    → Reloads history
    → Consistent n.man
    → Consistent (serve history n).man
unfolding serve
serve-Consistent [] n reloads c = c
serve-Consistent ((w, call) ∷ rest) n reloads c =
    serve-Consistent rest (perform w call n).1 reloads.1 ((perform-Ready w reloads.0 call).run n c)
