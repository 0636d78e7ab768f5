-- ===== src/Merge/Receive/Passed.antt =====
-- The test of a status when a packet passes by, and the choice of MergeComplete for the same status.
use chmpx.Base.{ℕ, ◌≡◌, refl, Bool, true, false, not, ◌&&◌, none, some}
use chmpx.Status.{is_pending, is_srvin}
use chmpx.Status.Safe.{IsSafe, safe_agree}
use chmpx.Merge.Status.{status_after_complete}
use chmpx.Merge.Receive.{complete_by_status}

abbrev pub completes : ℕ → Bool
completes s = elim (status_after_complete s) [ none ↦ false | some t ↦ true ]

-- A server of a safe status lets a packet that asks to complete a merge pass without an error exactly
-- if it takes part itself. MergeComplete finds a new status for a server of that status exactly if
-- the server takes part and is not in service and still waiting for a merge (PENDING).
pub complete_by_status_lem :
    (s : ℕ)
    → IsSafe s
    → ((complete_by_status s).0 ≡ (complete_by_status s).1)
      × (completes s ≡ ((complete_by_status s).1 && not (is_srvin s && is_pending s)))
unfolding complete_by_status status_after_complete is_pending is_srvin
complete_by_status_lem s v = (
  safe_agree (λ s. (complete_by_status s).0) (λ s. (complete_by_status s).1) refl s v,
  safe_agree completes (λ s. (complete_by_status s).1 && not (is_srvin s && is_pending s)) refl s v,
)
