-- ===== src/Kvp/Words.antt =====
-- A word of eight bytes can be read back.
use native.Mathlib.Nat.{pow-suc, div-div-eq-div-mul}
use chmpx.Base.{
  ℕ, zero, suc, ◌+◌, ◌*◌, ◌/◌, ◌%◌, ◌^◌, ◌<◌, ◌≡◌, refl, sym, ap, ◌∙◌, Bool, List, [], ◌∷◌, ◌++◌,
  length, length-append, arith,
}
use chmpx.Kvp.{to_bytes, of_bytes, turn, store_size, load_size}

length-to_bytes : (k n : ℕ) → length (to_bytes k n) ≡ k
unfolding to_bytes
length-to_bytes zero n = refl
length-to_bytes (suc k) n = ap suc (length-to_bytes k n)

length-turn : (bs : List ℕ) → length (turn bs) ≡ length bs
unfolding turn
length-turn [] = refl
length-turn (b ∷ bs) = omega (arith, length-turn bs, length-append (turn bs) (b ∷ []))

turn-append : (bs : List ℕ) (b : ℕ) → turn (bs ++ b ∷ []) ≡ b ∷ turn bs
unfolding turn
turn-append [] b = refl
turn-append (c ∷ bs) b = ap (λ xs. xs ++ c ∷ []) (turn-append bs b)

turn-turn : (bs : List ℕ) → turn (turn bs) ≡ bs
unfolding turn
turn-turn [] = refl
turn-turn (b ∷ bs) = turn-append (turn bs) b ∙ ap (λ xs. b ∷ xs) (turn-turn bs)

-- Dividing by one more byte.
div_byte : (k n : ℕ) → n / 256 ^ suc k ≡ n / 256 ^ k / 256
div_byte k n = ap (λ m. n / m) (pow-suc 256 k) ∙ sym (div-div-eq-div-mul n (256 ^ k) 256)

-- With the higher bytes read, the lower ones complete the word.
of_bytes-to_bytes : (k n acc : ℕ) → acc ≡ n / 256 ^ k → of_bytes acc (to_bytes k n) ≡ n
unfolding of_bytes to_bytes
of_bytes-to_bytes zero n acc e = omega (arith, e)
of_bytes-to_bytes (suc k) n acc e =
    of_bytes-to_bytes k n (acc * 256 + n / 256 ^ k % 256) (omega (arith, e, div_byte k n))

pub length-store_size :
    (is_little is_cvt : Bool) (n : ℕ) → length (store_size is_little is_cvt n) ≡ 8
unfolding store_size
length-store_size little cvt n = ground (arith, length-to_bytes 8 n, length-turn (to_bytes 8 n))

pub load_size-store_size :
    (is_little is_cvt : Bool) (n : ℕ)
    → n < 2 ^ 64
    → load_size is_little is_cvt (store_size is_little is_cvt n) ≡ n
unfolding load_size store_size
load_size-store_size little cvt n h =
    let whole = of_bytes-to_bytes 8 n 0 (omega arith) in
    ground (arith, whole, turn-turn (to_bytes 8 n))
