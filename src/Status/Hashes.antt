-- ===== src/Status/Hashes.antt =====
-- How the status decides in which of the two hash rings a server stands.
use chmpx.Base.{ℕ, ◌≡◌, refl, true, not, ◌&&◌, ◌||◌}
use chmpx.Status.{is_up, is_srvin, is_add, is_delete, is_basehash, is_pendinghash, is_servicing}
use chmpx.Status.Safe.{IsSafe, safe_agree, safe_implies}

-- For a safe status: a server is in service exactly when it stands in the base or in the pending
-- hash ring; it stands in the base ring alone exactly when it is being deleted, and in the pending
-- ring alone exactly when it is being added.
pub hash_rings :
    (s : ℕ)
    → IsSafe s
    → (is_srvin s ≡ (is_basehash s || is_pendinghash s))
      × ((is_basehash s && not (is_pendinghash s)) ≡ (is_srvin s && is_delete s))
      × ((is_pendinghash s && not (is_basehash s)) ≡ (is_srvin s && is_add s))
unfolding is_srvin is_basehash is_pendinghash is_delete is_add
hash_rings s v = (
  safe_agree is_srvin (λ t. is_basehash t || is_pendinghash t) refl s v,
  safe_agree (λ t. is_basehash t && not (is_pendinghash t)) (λ t. is_srvin t && is_delete t) refl s
      v,
  safe_agree (λ t. is_pendinghash t && not (is_basehash t)) (λ t. is_srvin t && is_add t) refl s v,
)

-- A server that takes messages is up and stands in the base hash ring.
pub servicing_in_base :
    (s : ℕ) → IsSafe s → is_servicing s ≡ true → (is_up s && is_basehash s) ≡ true
unfolding is_servicing is_up is_basehash
servicing_in_base = safe_implies is_servicing (λ t. is_up t && is_basehash t) refl
