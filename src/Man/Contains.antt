-- ===== src/Man/Contains.antt =====
-- The maps against duplicate registration: lists that grow at the end by new values only.
use chmpx.Base.{
  ℕ, suc, ◌≤◌, ◌≡◌, refl, true, false, not, ◌&&◌, ◌||◌, ◌==◌, ==_iff, some, List, [], ◌∷◌, ◌++◌,
  length, length-append, get_elem?, arith, ◌⊎◌, inl, inr, Bool-cases,
}
use chmpx.Ring.Members.{distinct, not_in}
use chmpx.Man.{contains, push_new}

pub contains-get_elem? :
    (x : ℕ) (xs : List ℕ) → contains x xs ≡ true → (i : ℕ) × (get_elem? xs i ≡ some x)
unfolding contains
contains-get_elem? x [] h = cc
contains-get_elem? x (y ∷ ys) h = elim (Bool-cases (y == x)) [
  | inl e ↦ (0, ground (arith, ==_iff y x))
  | inr e ↦ (suc (contains-get_elem? x ys (rw e at h)).0, (contains-get_elem? x ys (rw e at h)).1)
]

pub not_in-contains : (x : ℕ) (xs : List ℕ) → not_in x xs ≡ not (contains x xs)
unfolding contains
not_in-contains x [] = refl
not_in-contains x (y ∷ ys) = ground (arith, not_in-contains x ys)

contains-append : (y x : ℕ) (xs : List ℕ) → contains y (xs ++ x ∷ []) ≡ (contains y xs || (x == y))
unfolding contains
contains-append y x [] = ground arith
contains-append y x (z ∷ zs) = ground (arith, contains-append y x zs)

-- A registered value was there, or it is the new one.
pub contains-push_new :
    (y x : ℕ) (xs : List ℕ) → contains y (push_new x xs) ≡ true → (contains y xs ≡ true) ⊎ (x ≡ y)
unfolding push_new
contains-push_new y x xs h = elim (Bool-cases (contains x xs)) [
  | inl e ↦ inl (rw e at h)
  | inr e ↦ elim (Bool-cases (contains y xs)) [
    | inl k ↦ inl k
    | inr k ↦ inr ((==_iff x y).0 (rw (e, contains-append y x xs, k) at h))
  ]
]

-- A value that is not registered yet is put at the end.
pub push_new-append : (x : ℕ) (xs : List ℕ) → contains x xs ≡ false → push_new x xs ≡ xs ++ x ∷ []
unfolding push_new
push_new-append x xs e = rw e refl

not_in-append : (y x : ℕ) (xs : List ℕ) → not_in y (xs ++ x ∷ []) ≡ (not_in y xs && not (x == y))
not_in-append y x [] = ground arith
not_in-append y x (z ∷ zs) = ground (arith, not_in-append y x zs)

distinct-append :
    (x : ℕ) (xs : List ℕ) → distinct xs ≡ true → not_in x xs ≡ true → distinct (xs ++ x ∷ []) ≡ true
distinct-append x [] h k = refl
distinct-append x (z ∷ zs) h k = ground (arith, distinct-append x zs, not_in-append z x zs)

pub distinct-push_new : (x : ℕ) (xs : List ℕ) → distinct xs ≡ true → distinct (push_new x xs) ≡ true
unfolding push_new
distinct-push_new x xs h = ground (arith, distinct-append x xs h, not_in-contains x xs)

pub length-push_new : (x : ℕ) (xs : List ℕ) → length (push_new x xs) ≤ suc (length xs)
unfolding push_new
length-push_new x xs = ground (arith, length-append xs (x ∷ []))
