-- ===== src/Merge/Calls.antt =====
-- The handlers of a merge as they are called: by packets, by the control port, by the merge thread
-- and by the main loop.
mod Tests
use chmpx.Base.{ℕ, Bool, List, [], ◌∷◌}
use chmpx.Exec.{Exec, give, attempt, ◌>>=◌, ◌>>◌}
use chmpx.Merge.Settle.{receive_merge_start, receive_merge_complete}
use chmpx.Merge.Receive.{receive_merge_abort, receive_merge_suspend, receive_merge_no_suspend}
use chmpx.Merge.{Node, World}
use chmpx.Merge.Complete.{do_merge_complete, request_merge_complete, merge_done}
use chmpx.Merge.Abort.{do_merge_abort, request_merge_abort, do_suspend}
use chmpx.Merge.Start.{do_merge_start, request_merge_start}
use chmpx.Merge.Service.{
  request_service_in, request_service_out, request_merge_suspend, request_merge_no_suspend,
  continuous_auto_merge,
}

pub data Call : Type 0 where
  start done complete abort suspend continue : Call
  ask_start ask_complete ask_abort ask_service_in ask_suspend ask_no_suspend : Bool → Call
  ask_service_out : ℕ → Bool → Call
  get_start get_complete get_abort get_suspend get_no_suspend : ℕ → Bool → Call

unfoldable pub perform : World → Call → Exec Node (Unit {0})
perform w start = do_merge_start w
perform w done = merge_done w
perform w complete = do_merge_complete w
perform w abort = do_merge_abort w
perform w suspend = do_suspend w
perform w continue = continuous_auto_merge w
perform w (ask_start asked) = request_merge_start w asked
perform w (ask_complete asked) = request_merge_complete w asked
perform w (ask_abort asked) = request_merge_abort w asked
perform w (ask_service_in asked) = request_service_in w asked
perform w (ask_suspend asked) = request_merge_suspend w asked
perform w (ask_no_suspend asked) = request_merge_no_suspend w asked
perform w (ask_service_out chmpxid asked) = request_service_out w chmpxid asked
perform w (get_start dept is_success) = do attempt (receive_merge_start w dept is_success); give tt
perform w (get_complete dept is_success) = do
  attempt (receive_merge_complete w dept is_success)
  give tt
perform w (get_abort dept is_success) = do attempt (receive_merge_abort w dept is_success); give tt
perform w (get_suspend dept is_success) = do
  attempt (receive_merge_suspend w dept is_success)
  give tt
perform w (get_no_suspend dept is_success) = do
  attempt (receive_merge_no_suspend w dept is_success)
  give tt

-- A history of calls, each with what the network and the rest of the process do during it
unfoldable pub serve : List (World × Call) → Node → Node
serve [] n = n
serve ((w, call) ∷ rest) n = serve rest (perform w call n).1
