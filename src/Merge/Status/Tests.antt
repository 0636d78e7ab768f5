-- ===== src/Merge/Status/Tests.antt =====
-- The statuses of a merge at words that occur.
use chmpx.Base.{◌≡◌, refl, true, false, not, ◌&&◌, ◌||◌, some, none, arith}
use chmpx.Status.{
  srvin_up_normal, srvin_up_adding, srvin_up_added, is_safe, is_srvin, is_up, is_delete, is_pending,
  is_doing, is_suspend,
}
use chmpx.Status.Safe.{IsSafe}
use chmpx.Merge.Status.{status_after_complete}
use chmpx.Merge.Status.Laws.{Completed, status_after_complete_lem, status_after_complete_refuses}

added-IsSafe : IsSafe srvin_up_added
unfolding is_safe
added-IsSafe = record { word = omega arith; safe = refl }

adding-IsSafe : IsSafe srvin_up_adding
unfolding is_safe
adding-IsSafe = record { word = omega arith; safe = refl }

status_after_complete_lem_example : Completed srvin_up_added srvin_up_normal
unfolding status_after_complete
status_after_complete_lem_example =
    status_after_complete_lem srvin_up_added srvin_up_normal added-IsSafe refl

status_after_complete_refuses_example :
    (elim (status_after_complete srvin_up_adding) [ none ↦ true | some t ↦ false ]) ≡ (
      is_srvin srvin_up_adding
      && (is_up srvin_up_adding || is_delete srvin_up_adding)
      && (is_pending srvin_up_adding
          || is_doing srvin_up_adding
          || (is_suspend srvin_up_adding
              && is_up srvin_up_adding
              && not (is_delete srvin_up_adding))))
status_after_complete_refuses_example = status_after_complete_refuses srvin_up_adding adding-IsSafe
