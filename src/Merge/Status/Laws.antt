-- ===== src/Merge/Status/Laws.antt =====
-- What the new statuses of a merge mean for the two hash rings.
use chmpx.Base.{
  if◌then◌else◌, ℕ, ◌^◌, ◌≡◌, refl, Bool, true, false, not, ◌&&◌, ◌||◌, ◌⇔◌, ⇔-eq, all, arith, ltb,
  ltb→lt, &&-eq-true, eq-false_of_not, Option, none, some,
}
use chmpx.Status.{
  srvin_down_normal, srvin_up_pending, safe_statuses, is_safe, is_down, is_up, is_srvin,
  is_basehash, is_pendinghash, is_delete, is_operating, is_suspend, is_pending, is_doing,
}
use chmpx.Status.Safe.{IsSafe, both, safe_induction, safe_agree}
use chmpx.Merge.Status.{status_before_merge, status_after_abort, status_after_complete}

-- A test of the result, if there is one
abbrev pub when : (ℕ → Bool) → Option ℕ → Bool
when p none = true
when p (some t) = p t

abbrev pub fits : ℕ → Bool
fits t = ltb t (2 ^ 64) && is_safe t

when-some : (p : ℕ → Bool) (o : Option ℕ) (t : ℕ) → when p o ≡ true → o ≡ some t → p t ≡ true
when-some p none t h e = cc
when-some p (some u) t h e = ground arith

some_table :
    (p : ℕ → ℕ → Bool) (f : ℕ → Option ℕ)
    → all (both (λ s. when (p s) (f s))) safe_statuses ≡ true
    → (s t : ℕ) → IsSafe s
    → f s ≡ some t
    → p s t ≡ true
some_table p f h s t v e = when-some (p s) (f s) t (safe_induction (λ s. when (p s) (f s)) h s v) e

pub fits-IsSafe : (t : ℕ) → fits t ≡ true → IsSafe t
fits-IsSafe t h = let k = &&-eq-true _ _ h in record { word = ltb→lt _ _ k.0; safe = k.1 }

-- A new status after a test of the old one that concerns the hash rings.
pub record Completed (s t : ℕ) : Type 0 where
  pub safe : IsSafe t
  pub settled : is_operating t ≡ false
  pub base : is_basehash t ≡ is_pendinghash s
  pub pending : is_pendinghash t ≡ is_pendinghash s
  pub live : is_up t ≡ is_up s

-- When MergeComplete gives its server a new status out of a safe one, the new status is safe and
-- says that nothing is under way; the server stands in the base hash ring exactly if it stood in the
-- pending hash ring before, it stands in the pending hash ring as before, and it is up or down as
-- before.
pub status_after_complete_lem :
    (s t : ℕ) → IsSafe s → status_after_complete s ≡ some t → Completed s t
unfolding status_after_complete is_operating is_basehash is_pendinghash is_safe is_up
status_after_complete_lem s t v e = record {
  safe = fits-IsSafe t (some_table (λ s t. fits t) status_after_complete refl s t v e);
  settled =
      eq-false_of_not _
        (some_table (λ s t. not (is_operating t)) status_after_complete refl s t v e);
  base =
      ⇔-eq _ _
        (some_table (λ s t. is_basehash t ⇔ is_pendinghash s) status_after_complete refl s t v e);
  pending =
      ⇔-eq _ _ (
        some_table (λ s t. is_pendinghash t ⇔ is_pendinghash s) status_after_complete refl s t v e);
  live = ⇔-eq _ _ (some_table (λ s t. is_up t ⇔ is_up s) status_after_complete refl s t v e);
}

-- MergeComplete refuses a safe status exactly if its server is in service and waits for a merge or
-- takes part in one that is not done, or is suspended without being deleted; a server that is down
-- and not being deleted is not refused.
pub status_after_complete_refuses :
    (s : ℕ)
    → IsSafe s
    → (elim (status_after_complete s) [ none ↦ true | some t ↦ false ]) ≡ (
        is_srvin s
        && (is_up s || is_delete s)
        && (is_pending s || is_doing s || (is_suspend s && is_up s && not (is_delete s))))
unfolding status_after_complete is_srvin is_up is_delete is_pending is_doing is_suspend
status_after_complete_refuses =
    safe_agree (λ s. elim (status_after_complete s) [ none ↦ true | some t ↦ false ])
      (λ s.
        is_srvin s
        && (is_up s || is_delete s)
        && (is_pending s || is_doing s || (is_suspend s && is_up s && not (is_delete s))))
      refl

-- The same table for both values of the test of the hashes
abbrev for_both : (ℕ → ℕ → Bool) → ℕ → Bool
for_both p s = when (p s) (status_before_merge true s) && when (p s) (status_before_merge false s)

pub record Started (s t : ℕ) : Type 0 where
  pub safe : IsSafe t
  pub operating : is_operating t ≡ true
  pub waited : is_pending s ≡ true
  pub base : is_basehash t ≡ is_basehash s
  pub pending : is_pendinghash t ≡ is_pendinghash s
  pub undone :
      status_after_abort t
      ≡ (if is_down s then srvin_down_normal else (if is_delete s then srvin_up_pending else s))
