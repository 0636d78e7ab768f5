-- ===== src/Msg/Occ.antt =====
-- How often an id stands in a list.
use chmpx.Base.{
  ℕ, suc, ◌+◌, ◌<◌, ◌≡◌, refl, ◌==◌, ==_iff, if◌then◌else◌, List, [], ◌∷◌, length, arith,
}
use chmpx.Msg.{retrieve, left_over}

abbrev pub occ : ℕ → List ℕ → ℕ
occ x [] = 0
occ x (y ∷ ys) = (if y == x then 1 else 0) + occ x ys

pub occ-retrieve :
    (x msgid : ℕ) (xs : List ℕ)
    → 0 < occ msgid xs
    → occ x (retrieve msgid xs) + (if msgid == x then 1 else 0) ≡ occ x xs
unfolding retrieve
occ-retrieve x msgid [] h = absurd (omega arith)
occ-retrieve x msgid (y ∷ ys) h = ground (arith, occ-retrieve x msgid ys, ==_iff y msgid)

pub length-retrieve :
    (msgid : ℕ) (xs : List ℕ) → 0 < occ msgid xs → suc (length (retrieve msgid xs)) ≡ length xs
unfolding retrieve
length-retrieve msgid [] h = absurd (omega arith)
length-retrieve msgid (y ∷ ys) h = ground (arith, length-retrieve msgid ys, ==_iff y msgid)

length-zero : (xs : List ℕ) → length xs ≡ 0 → xs ≡ []
length-zero [] e = refl
length-zero (x ∷ xs) e = absurd (omega arith)

-- Resetting the head of a list whose count becomes zero loses nothing.
pub left_over-retrieve :
    (msgid count : ℕ) (xs : List ℕ)
    → 0 < occ msgid xs
    → count ≡ length xs
    → left_over msgid count xs ≡ retrieve msgid xs
unfolding left_over
left_over-retrieve msgid count xs h e =
    ground (arith, length-retrieve msgid xs h, length-zero (retrieve msgid xs))
