-- ===== src/Util.antt =====
-- lib/chmutil.cc: strings of digits. A string is the list of its characters' codes, without the
-- zero at its end; a pointer that is null stands for the empty string in all of these functions.
pub mod Value
mod Tests
use chmpx.Base.{
  ℕ, ◌+◌, ◌-◌, ◌*◌, ◌%◌, ◌^◌, Bool, true, false, ◌&&◌, leb, if◌then◌else◌, Option, none, some, List,
  [], ◌∷◌,
}

-- The value of a character in a decimal or in a hexadecimal number
unfoldable pub digit : Bool → ℕ → Option ℕ
digit is_decimal c =
    if leb 48 c && leb c 57
    then some (c - 48)
    else (if is_decimal
        then none
        else (if leb 97 c && leb c 102
            then some ((c - 97) + 10)
            else (if leb 65 c && leb c 70 then some ((c - 65) + 10) else none)))

unfoldable pub base : Bool → ℕ
base is_decimal = if is_decimal then 10 else 16

-- The loop of cvt_string_to_number_raw: the returned truth value and `*presult`, a uint64_t
unfoldable pub cvt_from : Bool → ℕ → List ℕ → Bool × ℕ
cvt_from is_decimal result [] = (true, result)
cvt_from is_decimal result (c ∷ rest) =
    let shifted = (result * base is_decimal) % 2 ^ 64 in
    elim (digit is_decimal c) [
      | none ↦ (false, shifted)
      | some k ↦ cvt_from is_decimal ((shifted + k) % 2 ^ 64) rest
    ]

-- cvt_string_to_number_raw; `*presult` is left alone if the string is empty.
unfoldable pub cvt_string_to_number_raw : Bool → ℕ → List ℕ → Bool × ℕ
cvt_string_to_number_raw is_decimal before [] = (false, before)
cvt_string_to_number_raw is_decimal before (c ∷ rest) = cvt_from is_decimal 0 (c ∷ rest)

unfoldable pub cvt_string_to_number : Bool → List ℕ → ℕ
cvt_string_to_number is_decimal str = (cvt_string_to_number_raw is_decimal 0 str).1

-- is_string_number_ex, for a `max` that is not negative
unfoldable pub is_string_number_ex : Bool → ℕ → Bool → List ℕ → Bool
is_string_number_ex is_decimal max allow_empty [] = allow_empty
is_string_number_ex is_decimal max allow_empty (c ∷ rest) =
    let (ok, result) = cvt_string_to_number_raw is_decimal 0 (c ∷ rest) in ok && leb result max
