-- ===== src/Merge/Receive.antt =====
-- lib/chmeventsock.cc: packets that go around the RING, as a server receives them and passes them
-- on: IsSafeDeptAndNextChmpxId, PxComReceiveMergeAbort, PxComReceiveMergeSuspend and
-- PxComReceiveMergeNoSuspend, and the test of the own status in PxComReceiveMergeComplete.
pub mod Around
pub mod Passed
mod Tests
use chmpx.Base.{
  ℕ, suc, Bool, true, false, not, ◌&&◌, ◌||◌, ◌==◌, if◌then◌else◌, Option, none, some, List, [],
  ◌∷◌,
}
use chmpx.Exec.{Exec, give, refuse, look, write, demand, ◌>>=◌, ◌>>◌}
use chmpx.Status.{
  is_down, is_up, is_srvin, is_noact, is_add, is_delete, is_pending, is_doing, is_done, is_suspend,
}
use chmpx.Ring.{Chmpx, invalid_chmpxid}
use chmpx.Man.{Man}
use chmpx.Merge.{Node, World, self_chmpx}
use chmpx.Merge.Send.{others, next_ring_chmpxid}

-- The loop of IsSafeDeptAndNextChmpxId: which of the two comes first
unfoldable pub is_safe_from : ℕ → ℕ → (ℕ → Chmpx) → List ℕ → Bool
is_safe_from dept next store [] = false
is_safe_from dept next store (a ∷ rest) =
    let chmpxid = (store a).chmpxid in
    let further = is_safe_from dept next store rest in
    if not (store a).has_name || chmpxid == invalid_chmpxid
    then further
    else (if next == chmpxid then true else (if dept == chmpxid then false else further))

-- IsSafeDeptAndNextChmpxId
unfoldable pub is_safe_dept_and_next_chmpxid : ℕ → ℕ → Man → Bool
unfolding is_safe_from others
is_safe_dept_and_next_chmpxid dept next m =
    if dept == invalid_chmpxid || next == invalid_chmpxid
    then false
    else (if dept == next
        then true
        else is_safe_from dept next m.ring.store (others m.self m.ring.servers))

-- The packet that is passed on: where it goes, where it comes from, and whether all has gone well
pub record Onward : Type 0 where
  pub next : ℕ
  pub dept : ℕ
  pub is_success : Bool

-- The test of the own status when a packet that asks to complete a merge comes by: whether the
-- packet still says success, and whether the own server completes the merge now (`is_completed`)
unfoldable pub complete_by_status : ℕ → Bool × Bool
unfolding is_srvin is_up is_down is_noact is_add is_delete is_pending is_doing is_done is_suspend
complete_by_status s =
    if not (is_srvin s)
    then (true, true)
    else (if is_up s
        then (if is_noact s
            then (if is_suspend s || is_doing s then (false, false) else (true, true))
            else (if is_add s
                then (if not (is_pending s) && is_suspend s || is_doing s
                    then (false, false)
                    else (true, true))
                else (if is_delete s
                    then (if not (is_done s) && is_suspend s || is_doing s
                        then (false, false)
                        else (true, true))
                    else (true, false))))
        else (if is_down s then (true, true) else (true, false)))

module _ (w : World) where
  -- What the handlers do with a packet of another server before they look into it: the id of the
  -- next server, unless the packet would overtake its departure.
  unfoldable pub next_of : ℕ → Exec Node (Option ℕ)
  next_of dept = do
    n ← look (λ n. n)
    demand (not (next_ring_chmpxid w n == invalid_chmpxid))
    give (
        if is_safe_dept_and_next_chmpxid dept (next_ring_chmpxid w n) n.man
        then some (next_ring_chmpxid w n)
        else none)

  -- PxComReceiveMergeAbort
  unfoldable pub receive_merge_abort : ℕ → Bool → Exec Node (Option Onward)
  receive_merge_abort dept is_success = do
    n ← look (λ n. n)
    if dept == (self_chmpx n).chmpxid then give none else do
      found ← next_of dept
      give (elim found [
        | none ↦ none
        | some next ↦ some (record { next = next; dept = dept; is_success = is_success })
      ])

  -- What a packet that has not failed sets at a server that passes it on
  unfoldable pub pass_on : (Node → Node) → ℕ → Bool → Option ℕ → Exec Node (Option Onward)
  pass_on change dept is_success none = give none
  pass_on change dept is_success (some next) = do
    write (λ n. if is_success then change n else n)
    give (some (record { next = next; dept = dept; is_success = is_success }))

  -- PxComReceiveMergeSuspend; ChmIMData::SuspendAutoMerge sets the flag.
  unfoldable pub receive_merge_suspend : ℕ → Bool → Exec Node (Option Onward)
  receive_merge_suspend dept is_success = do
    n ← look (λ n. n)
    if dept == (self_chmpx n).chmpxid then (do demand is_success; give none) else (do
      found ← next_of dept
      pass_on (λ n. record n { is_auto_merge_suspend = true; startup_servicein = false }) dept
          is_success found)

  -- PxComReceiveMergeNoSuspend; ChmIMData::ResetAutoMerge clears the flag.
  unfoldable pub receive_merge_no_suspend : ℕ → Bool → Exec Node (Option Onward)
  receive_merge_no_suspend dept is_success = do
    n ← look (λ n. n)
    if dept == (self_chmpx n).chmpxid then (do demand is_success; give none) else (do
      found ← next_of dept
      pass_on (λ n. record n { is_auto_merge_suspend = false }) dept is_success found)
