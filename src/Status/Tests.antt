-- ===== src/Status/Tests.antt =====
-- The status theorems at statuses that occur.
use chmpx.Base.{ℕ, ◌+◌, ◌≡◌, refl, false, arith}
use chmpx.Status.{
  mask_suspend, srvin_up_normal, srvin_up_deleting, srvout_up_normal, is_safe, is_srvin,
  is_basehash, is_delete, is_up, is_suspend, is_operating,
}
use chmpx.Status.Change.{change_to_srvout}
use chmpx.Status.Safe.{IsSafe}
use chmpx.Status.Moves.{
  to_down, to_srvin, to_suspend, answer, Reach, here, next, Reach-IsSafe-basehash,
  change_to_srvout_drops_suspend,
}

abbrev suspended : ℕ
suspended = srvin_up_normal + mask_suspend

suspended-IsSafe : IsSafe suspended
unfolding is_safe
suspended-IsSafe = record { word = omega arith; safe = refl }

deleting-IsSafe : IsSafe srvin_up_deleting
unfolding is_safe
deleting-IsSafe = record { word = omega arith; safe = refl }

out-IsSafe : IsSafe srvout_up_normal
unfolding is_safe
out-IsSafe = record { word = omega arith; safe = refl }

-- A server joins, is suspended and goes down.
abbrev final : ℕ
final = answer to_down (answer to_suspend (answer to_srvin srvout_up_normal))

history : Reach srvout_up_normal final
history = next to_down (next to_suspend (next to_srvin here))

Reach-IsSafe-basehash_example : IsSafe final × (is_basehash final ≡ is_basehash srvout_up_normal)
Reach-IsSafe-basehash_example = Reach-IsSafe-basehash out-IsSafe history

change_to_srvout_drops_suspend_example : is_suspend (change_to_srvout suspended) ≡ false
unfolding is_srvin is_up is_delete is_operating is_suspend
change_to_srvout_drops_suspend_example =
    change_to_srvout_drops_suspend suspended suspended-IsSafe refl
