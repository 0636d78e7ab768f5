-- ===== src/Util/Value.antt =====
-- The number that a string of digits stands for.
use chmpx.Base.{
  ◌≤◌, ◌≢◌, ltb, ltb→lt, ℕ, ◌+◌, ◌*◌, ◌%◌, ◌^◌, ◌<◌, ◌≡◌, refl, ap, ◌∙◌, Bool, true, false, ◌&&◌,
  leb, if◌then◌else◌, Bool-cases, Option-cases, zero, suc, ◌/◌, inl, inr, none, some, List, [], ◌∷◌,
  arith, all,
}
use chmpx.Util.{
  digit, base, cvt_from, cvt_string_to_number_raw, cvt_string_to_number, is_string_number_ex,
}

abbrev pub is_digit : Bool → ℕ → Bool
is_digit is_decimal c = elim (digit is_decimal c) [ none ↦ false | some k ↦ true ]

-- The number of the digits, which is not bounded
abbrev pub value : Bool → ℕ → List ℕ → ℕ
value is_decimal acc [] = acc
value is_decimal acc (c ∷ rest) = elim (digit is_decimal c) [
  | none ↦ acc
  | some k ↦ value is_decimal (acc * base is_decimal + k) rest
]

wrap_round :
    (is_decimal : Bool) (acc k : ℕ)
    → (((acc % 2 ^ 64) * base is_decimal) % 2 ^ 64 + k) % 2 ^ 64
      ≡ (acc * base is_decimal + k) % 2 ^ 64
unfolding base
wrap_round true acc k = omega arith
wrap_round false acc k = omega arith

-- Either all characters are digits, and the result is their number without what does not fit, or the
-- loop fails.
cvt_from_lem :
    (is_decimal : Bool) (acc : ℕ) (str : List ℕ)
    → ((cvt_from is_decimal (acc % 2 ^ 64) str).0 ≡ all (is_digit is_decimal) str)
      × (all (is_digit is_decimal) str ≡ true
          → (cvt_from is_decimal (acc % 2 ^ 64) str).1 ≡ value is_decimal acc str % 2 ^ 64)
unfolding cvt_from
cvt_from_lem is_decimal acc [] = (refl, λ h. refl)
cvt_from_lem is_decimal acc (c ∷ rest) = elim (Option-cases (digit is_decimal c)) [
  | inl e ↦ rw (e, cvt_from, all, is_digit, value) (refl, λ h. absurd (ground arith))
  | inr (k, e) ↦
      rw (e, cvt_from, all, is_digit, value)
        (rw (wrap_round is_decimal acc k)
          (cvt_from_lem is_decimal (acc * base is_decimal + k) rest))
]

-- A string that is not empty is accepted as a number up to `max` exactly if all its characters are
-- digits and the remainder of its number modulo 2^64 is at most `max`. The bug: a number that does
-- not fit into 64 bits wraps around, so that it is accepted although it is larger than `max`.
pub is_string_number_ex_lem :
    (is_decimal : Bool) (max : ℕ) (allow_empty : Bool) (c : ℕ) (rest : List ℕ)
    → is_string_number_ex is_decimal max allow_empty (c ∷ rest)
      ≡ (all (is_digit is_decimal) (c ∷ rest) && leb (value is_decimal 0 (c ∷ rest) % 2 ^ 64) max)
unfolding is_string_number_ex cvt_string_to_number_raw
is_string_number_ex_lem is_decimal max allow_empty c rest =
    let (ok, result) = cvt_from_lem is_decimal 0 (c ∷ rest) in
    elim (Bool-cases (all (is_digit is_decimal) (c ∷ rest))) [
      | inl e ↦ rw (ok, result e) refl
      | inr e ↦ rw (ok, e) refl
    ]

-- The decimal digits of a number, as std::to_string prints it; as many rounds as the number are
-- enough.
abbrev pub digits_from : ℕ → ℕ → List ℕ → List ℕ
digits_from zero n rest = (48 + n) ∷ rest
digits_from (suc fuel) n rest =
    let further = digits_from fuel (n / 10) ((48 + n % 10) ∷ rest) in
    if ltb n 10 then (48 + n) ∷ rest else further

abbrev pub to_string : ℕ → List ℕ
to_string n = digits_from n n []

digit_lem : (k : ℕ) → k < 10 → digit true (48 + k) ≡ some k
unfolding digit
digit_lem k h = ground arith

-- Digits in front of a string that make the number `n`
record Reads (n : ℕ) (str rest : List ℕ) : Type 0 where
  digits : all (is_digit true) str ≡ all (is_digit true) rest
  number : value true 0 str ≡ value true n rest

digit-all :
    (k : ℕ) (rest : List ℕ)
    → k < 10
    → all (is_digit true) ((48 + k) ∷ rest) ≡ all (is_digit true) rest
digit-all k rest h = rw (digit_lem k h, all, is_digit) refl

digit-value :
    (acc k n : ℕ) (rest : List ℕ)
    → k < 10
    → acc * 10 + k ≡ n
    → value true acc ((48 + k) ∷ rest) ≡ value true n rest
unfolding base
digit-value acc k n rest h e = rw (digit_lem k h, value) (ap (λ a. value true a rest) e)

digits_from-Reads : (fuel n : ℕ) (rest : List ℕ) → n ≤ fuel → Reads n (digits_from fuel n rest) rest
digits_from-Reads zero n rest h = record {
  digits = digit-all n rest (omega arith);
  number = digit-value 0 n n rest (omega arith) (omega arith);
}
digits_from-Reads (suc fuel) n rest h = elim (Bool-cases (ltb n 10)) [
  | inl e ↦ rw e (record {
    digits = digit-all n rest (ltb→lt _ _ e);
    number = digit-value 0 n n rest (ltb→lt _ _ e) (omega arith);
  })
  | inr e ↦
      (let more : 10 ≤ n = ground arith in
        let ih = digits_from-Reads fuel (n / 10) ((48 + n % 10) ∷ rest) (omega arith) in
        rw e (record {
          digits = ih.digits ∙ digit-all (n % 10) rest (omega arith);
          number = ih.number ∙ digit-value (n / 10) (n % 10) n rest (omega arith) (omega arith);
        }))
]

converted :
    (n : ℕ) (str : List ℕ)
    → n < 2 ^ 64
    → Reads n str []
    → str ≢ []
    → cvt_string_to_number true str ≡ n
unfolding cvt_string_to_number cvt_string_to_number_raw
converted n [] small r h = absurd (h refl)
converted n (c ∷ rest) small r h =
    let (ok, result) = cvt_from_lem true 0 (c ∷ rest) in
    result r.digits ∙ (ap (λ v. v % 2 ^ 64) r.number ∙ omega arith)

digits_from-not_empty : (fuel n : ℕ) (rest : List ℕ) → digits_from fuel n rest ≢ []
digits_from-not_empty zero n rest e = cc
digits_from-not_empty (suc fuel) n rest e = elim (Bool-cases (ltb n 10)) [
  | inl s ↦ (let k : (48 + n) ∷ rest ≡ [] = rw s at e in cc)
  | inr s ↦ digits_from-not_empty fuel (n / 10) ((48 + n % 10) ∷ rest) (rw s at e)
]

-- Reading the decimal digits of a number that fits into 64 bits gives the number back.
pub cvt_string_to_number-to_string :
    (n : ℕ) → n < 2 ^ 64 → cvt_string_to_number true (to_string n) ≡ n
cvt_string_to_number-to_string n small =
    converted n (to_string n) small (digits_from-Reads n n [] (omega arith))
      (digits_from-not_empty n n [])
