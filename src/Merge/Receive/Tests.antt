-- ===== src/Merge/Receive/Tests.antt =====
-- Packets on a RING of four servers, as the first of them passes them on.
use chmpx.Base.{◌<◌, ◌≡◌, refl, true, not, ◌&&◌, ◌||◌, ◌==◌, ltb, [], ◌∷◌, arith}
use chmpx.Status.{srvin_up_addpending, is_safe, is_srvin, is_pending}
use chmpx.Status.Safe.{IsSafe}
use chmpx.Ring.{invalid_chmpxid}
use chmpx.Ring.Walk.{after}
use chmpx.Man.Sample.{node, start}
use chmpx.Merge.Send.{before, others}
use chmpx.Merge.Receive.{is_safe_dept_and_next_chmpxid, complete_by_status}
use chmpx.Merge.Receive.Around.{steps, is_safe_dept_and_next_chmpxid_lem, Hop, closer}
use chmpx.Merge.Receive.Passed.{completes, complete_by_status_lem}

is_safe_dept_and_next_chmpxid_lem_example : is_safe_dept_and_next_chmpxid 104 103 start ≡ (
    not (104 == invalid_chmpxid)
    && not (103 == invalid_chmpxid)
    && (104 == 103
        || ltb
            (steps 103 node (others 1 (1 ∷ 2 ∷ 3 ∷ 4 ∷ [])))
            (steps 104 node (others 1 (1 ∷ 2 ∷ 3 ∷ 4 ∷ [])))))
is_safe_dept_and_next_chmpxid_lem_example = is_safe_dept_and_next_chmpxid_lem 104 103 start

start-Hop : Hop start 3 (2 ∷ []) (4 ∷ [])
unfolding others before after
start-Hop = record { single = refl; listed = refl; seen = refl; first = refl }

goes_on : is_safe_dept_and_next_chmpxid 104 103 start ≡ true
unfolding is_safe_dept_and_next_chmpxid
goes_on = refl

closer_example :
    steps 104 node (others 3 (1 ∷ 2 ∷ 3 ∷ 4 ∷ [])) < steps 104 node (others 1 (1 ∷ 2 ∷ 3 ∷ 4 ∷ []))
closer_example = closer 104 3 (2 ∷ []) (4 ∷ []) start start-Hop goes_on refl (omega arith)

addpending-IsSafe : IsSafe srvin_up_addpending
unfolding is_safe
addpending-IsSafe = record { word = omega arith; safe = refl }

complete_by_status_lem_example :
    ((complete_by_status srvin_up_addpending).0 ≡ (complete_by_status srvin_up_addpending).1)
    × (completes srvin_up_addpending ≡ (
        (complete_by_status srvin_up_addpending).1
        && not (is_srvin srvin_up_addpending && is_pending srvin_up_addpending)))
complete_by_status_lem_example = complete_by_status_lem srvin_up_addpending addpending-IsSafe
