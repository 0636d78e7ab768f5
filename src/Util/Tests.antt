-- ===== src/Util/Tests.antt =====
-- Numbers as strings: 42, and the number 2^64, which wraps around.
use chmpx.Base.{◌^◌, ◌≡◌, refl, true, false, ◌&&◌, ◌%◌, leb, [], ◌∷◌, all, arith}
use chmpx.Util.{
  digit, base, cvt_from, cvt_string_to_number_raw, cvt_string_to_number, is_string_number_ex,
}
use chmpx.Util.Value.{
  is_digit, value, is_string_number_ex_lem, to_string, cvt_string_to_number-to_string,
}

is_string_number_ex_lem_example :
    is_string_number_ex true 100 false (52 ∷ 50 ∷ [])
    ≡ (all (is_digit true) (52 ∷ 50 ∷ []) && leb (value true 0 (52 ∷ 50 ∷ []) % 2 ^ 64) 100)
is_string_number_ex_lem_example = is_string_number_ex_lem true 100 false 52 (50 ∷ [])

cvt_string_to_number-to_string_example : cvt_string_to_number true (to_string 42) ≡ 42
cvt_string_to_number-to_string_example = cvt_string_to_number-to_string 42 (omega arith)

-- A number of 17 hexadecimal digits is taken for 0.
wraps :
    is_string_number_ex false 7 false
      (49 ∷ 48 ∷ 48 ∷ 48 ∷ 48 ∷ 48 ∷ 48 ∷ 48 ∷ 48 ∷ 48 ∷ 48 ∷ 48 ∷ 48 ∷ 48 ∷ 48 ∷ 48 ∷ 48 ∷ [])
    ≡ true
unfolding is_string_number_ex cvt_string_to_number_raw cvt_from digit base
wraps = refl
