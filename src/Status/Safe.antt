-- ===== src/Status/Safe.antt =====
-- The safe statuses, one by one: IS_SAFE_CHMPXSTS admits 17 statuses, each with and without the
-- suspend flag, so that what holds of these 34 words holds of every safe word.
use chmpx.Base.{
  ℕ, ◌+◌, ◌^◌, ◌<◌, ◌==◌, ◌≡◌, ◌⊎◌, inl, inr, Bool, true, ◌&&◌, ◌⇒◌, ⇒-elim, ◌⇔◌, ⇔-eq, List, [],
  ◌∷◌, all, arith, &&-eq-true,
}
use chmpx.Base.Bits.{split_mask, bit_and-pow}
use chmpx.Status.{mask_all, mask_suspend, clear, is_safe, is_one_of, safe_statuses}

all-is_one_of :
    (p : ℕ → Bool) (vs : List ℕ) (s : ℕ) → all p vs ≡ true → is_one_of vs s ≡ true → p s ≡ true
all-is_one_of p [] s h m = cc
all-is_one_of p (v ∷ vs) s h m = ground (arith, all-is_one_of p vs s)

-- A word is its suspend flag on top of the rest.
word_split :
    (s : ℕ) → s < 2 ^ 64 → (s ≡ clear s mask_suspend) ⊎ (s ≡ clear s mask_suspend + mask_suspend)
unfolding clear
word_split s h = omega (arith, split_mask 64 s mask_suspend h (omega arith), bit_and-pow 16 s)

-- The test of a property on a status with and without the suspend flag.
abbrev pub both : (ℕ → Bool) → ℕ → Bool
both p v = p v && p (v + mask_suspend)

-- A 64-bit word that IS_SAFE_CHMPXSTS accepts.
pub record IsSafe (s : ℕ) : Type 0 where
  pub word : s < 2 ^ 64
  pub safe : is_safe s ≡ true

-- A test that the 34 safe words pass is passed by every word that IS_SAFE_CHMPXSTS accepts.
pub safe_induction :
    (p : ℕ → Bool) → all (both p) safe_statuses ≡ true → (s : ℕ) → IsSafe s → p s ≡ true
unfolding is_safe
safe_induction p h s v = elim (word_split s v.word) [ inl e ↦ rw e known.0 | inr e ↦ rw e known.1 ]
  where
    known : (p (clear s mask_suspend) ≡ true) × (p (clear s mask_suspend + mask_suspend) ≡ true)
    known = &&-eq-true _ _ (
        all-is_one_of (both p) safe_statuses (clear s mask_suspend) h
          (&&-eq-true (0 == clear s mask_all) _ v.safe).1)

-- The same for two tests that agree, and for a test that follows from another.
pub safe_agree :
    (p q : ℕ → Bool)
    → all (both (λ t. p t ⇔ q t)) safe_statuses ≡ true
    → (s : ℕ) → IsSafe s
    → p s ≡ q s
safe_agree p q h s v = ⇔-eq (p s) (q s) (safe_induction (λ t. p t ⇔ q t) h s v)

pub safe_implies :
    (p q : ℕ → Bool)
    → all (both (λ t. p t ⇒ q t)) safe_statuses ≡ true
    → (s : ℕ) → IsSafe s
    → p s ≡ true
    → q s ≡ true
safe_implies p q h s v = ⇒-elim (p s) (q s) (safe_induction (λ t. p t ⇒ q t) h s v)
