-- ===== src/Kvp/Trip.antt =====
-- What is put into a message is loaded from it again.
use chmpx.Base.{
  ℕ, zero, suc, ◌+◌, ◌^◌, ◌≤◌, ◌<◌, ◌≡◌, refl, sym, subst, ap, ◌∙◌, Bool, true, false, not, ◌&&◌,
  ◌==◌, if◌then◌else◌, some, List, [], ◌∷◌, ◌++◌, length, length-append, take, drop, arith,
}
use chmpx.Kvp.{
  BinData, KvPair, empty, empty_pair, bytes_of, store_size, load_size, load, put, load_pair,
  put_pair,
}
use chmpx.Kvp.Words.{length-store_size, load_size-store_size}

-- The length fits a word, and the memory holds that many bytes.
pub record IsValid (b : BinData) : Type 0 where
  pub small : b.len < 2 ^ 64
  pub room : b.len ≤ length b.byptr

pub take-append : (xs ys : List ℕ) (n : ℕ) → n ≡ length xs → take n (xs ++ ys) ≡ xs
take-append [] ys zero e = refl
take-append [] ys (suc n) e = absurd (omega arith)
take-append (x ∷ xs) ys zero e = absurd (omega arith)
take-append (x ∷ xs) ys (suc n) e = ap (λ zs. x ∷ zs) (take-append xs ys n (omega arith))

drop-append : (xs ys : List ℕ) (n : ℕ) → n ≡ length xs → drop n (xs ++ ys) ≡ ys
drop-append [] ys zero e = refl
drop-append [] ys (suc n) e = absurd (omega arith)
drop-append (x ∷ xs) ys zero e = absurd (omega arith)
drop-append (x ∷ xs) ys (suc n) e = drop-append xs ys n (omega arith)

pub length-take : (xs : List ℕ) (n : ℕ) → n ≤ length xs → length (take n xs) ≡ n
length-take xs zero h = refl
length-take [] (suc n) h = absurd (omega arith)
length-take (x ∷ xs) (suc n) h = ap suc (length-take xs n (omega arith))

append_assoc : (xs ys zs : List ℕ) → (xs ++ ys) ++ zs ≡ xs ++ (ys ++ zs)
append_assoc [] ys zs = refl
append_assoc (x ∷ xs) ys zs = ap (λ l. x ∷ l) (append_assoc xs ys zs)

-- A loaded buffer has the length and the bytes of one that was put.
pub record Loaded (b : BinData) (out : Bool × BinData) : Type 0 where
  pub done : out.0 ≡ true
  pub len : out.1.len ≡ b.len
  pub bytes : bytes_of out.1 ≡ bytes_of b

pub take_whole : (xs : List ℕ) (n : ℕ) → n ≡ length xs → take n xs ≡ xs
take_whole [] zero e = refl
take_whole [] (suc n) e = absurd (omega arith)
take_whole (x ∷ xs) zero e = absurd (omega arith)
take_whole (x ∷ xs) (suc n) e = ap (λ zs. x ∷ zs) (take_whole xs n (omega arith))

take_twice :
    (b : BinData) (rest t : List ℕ) (n : ℕ)
    → IsValid b
    → n ≡ b.len
    → t ≡ bytes_of b ++ rest
    → take n (take n t) ≡ bytes_of b
take_twice b rest t n v e f =
    let count : n ≡ length (bytes_of b) = e ∙ sym (length-take b.byptr b.len v.room) in
    ap (take n) (ap (take n) f ∙ take-append (bytes_of b) rest n count)
    ∙ take_whole (bytes_of b) n count

-- What load makes of the length and the bytes after it
abbrev loaded_from : Bool → Bool → ℕ → List ℕ → Bool × BinData
loaded_from no_bytes dup n t =
    if no_bytes
    then (true, empty)
    else (if dup && not true
        then (false, empty)
        else (true, record { byptr = take n t; len = n; is_allocate = dup }))

loaded_from-Loaded :
    (b : BinData) (rest : List ℕ) (dup : Bool) (n : ℕ) (t : List ℕ)
    → IsValid b
    → n ≡ b.len
    → t ≡ bytes_of b ++ rest
    → (no_bytes : Bool) → (n == 0) ≡ no_bytes
    → Loaded b (loaded_from no_bytes dup n t)
loaded_from-Loaded b rest dup n t v e f true z =
    let none_left : 0 ≡ b.len = ground arith in
    record { done = refl; len = none_left; bytes = ap (λ k. take k b.byptr) none_left }
loaded_from-Loaded b rest true n t v e f false z = record {
  done = refl;
  len = e;
  bytes = take_twice b rest t n v e f;
}
loaded_from-Loaded b rest false n t v e f false z = record {
  done = refl;
  len = e;
  bytes = take_twice b rest t n v e f;
}

load-put :
    (is_little is_cvt is_duplicate : Bool) (b : BinData) (rest : List ℕ)
    → IsValid b
    → Loaded b (load is_little true (some (put is_little b is_cvt ++ rest)) is_cvt is_duplicate)
unfolding load put
load-put little cvt dup b rest v =
    let size = store_size little cvt b.len in
    let head : take 8 ((size ++ bytes_of b) ++ rest) ≡ size =
      ap (take 8) (append_assoc size (bytes_of b) rest)
      ∙ take-append size (bytes_of b ++ rest) 8 (sym (length-store_size little cvt b.len)) in
    let tail : drop 8 ((size ++ bytes_of b) ++ rest) ≡ bytes_of b ++ rest =
      ap (drop 8) (append_assoc size (bytes_of b) rest)
      ∙ drop-append size (bytes_of b ++ rest) 8 (sym (length-store_size little cvt b.len)) in
    let n : load_size little cvt (take 8 ((size ++ bytes_of b) ++ rest)) ≡ b.len =
      ap (load_size little cvt) head ∙ load_size-store_size little cvt b.len v.small in
    let bytes = (size ++ bytes_of b) ++ rest in
    loaded_from-Loaded b rest dup (load_size little cvt (take 8 bytes)) (drop 8 bytes) v n tail
      (load_size little cvt (take 8 bytes) == 0) refl

-- What is loaded after a pair was put
pub record PairLoaded (p : KvPair) (out : Bool × KvPair) : Type 0 where
  pub done : out.0 ≡ true
  pub key : bytes_of out.1.key ≡ bytes_of p.key
  pub value : bytes_of out.1.value ≡ bytes_of p.value

-- Where the value of a pair starts
value_place :
    (little cvt : Bool) (b : BinData) (rest : List ℕ) (n : ℕ)
    → IsValid b
    → n ≡ b.len
    → drop (n + 8) (put little b cvt ++ rest) ≡ rest
unfolding put
value_place little cvt b rest n v e = drop-append (put little b cvt) rest (n + 8) (
    omega (
      arith,
      length-append (store_size little cvt b.len) (bytes_of b),
      length-store_size little cvt b.len,
      length-take b.byptr b.len v.room,
    ))

pair_of :
    (p : KvPair) (k v : Bool × BinData)
    → Loaded p.key k
    → Loaded p.value v
    → PairLoaded p
        (if k.0 && v.0 then (true, record { key = k.1; value = v.1 }) else (false, empty_pair))
pair_of p (true, k) (true, v) kl vl = record { done = refl; key = kl.bytes; value = vl.bytes }
pair_of p (false, k) v kl vl = absurd (ground (arith, kl.done))
pair_of p (true, k) (false, v) kl vl = absurd (ground (arith, vl.done))

-- A pair whose buffers are valid (a length below 2^64 and as many bytes in memory) that
-- ChmKVPair::Put writes, with any bytes after it, is read by ChmKVPair::Load, on a host of either
-- byte order, with or without conversion and with or without duplication as long as memory can be
-- allocated: Load succeeds, and the key and the value have the bytes they had.
pub load_pair-put_pair :
    (little cvt dup : Bool) (p : KvPair) (rest : List ℕ)
    → IsValid p.key
    → IsValid p.value
    → PairLoaded p (load_pair little true (some (put_pair little p cvt ++ rest)) cvt dup)
unfolding load_pair put_pair
load_pair-put_pair little cvt dup p rest kv vv =
    let later = put little p.value cvt ++ rest in
    let shape : put_pair little p cvt ++ rest ≡ put little p.key cvt ++ later =
      append_assoc (put little p.key cvt) (put little p.value cvt) rest in
    subst (λ bytes. PairLoaded p (load_pair little true (some bytes) cvt dup)) (sym shape)
      (let k = load-put little cvt dup p.key later kv in
        let first = load little true (some (put little p.key cvt ++ later)) cvt dup in
        let place = value_place little cvt p.key later first.1.len kv k.len in
        let w =
          subst (λ l. Loaded p.value (load little true (some l) cvt dup)) (sym place)
            (load-put little cvt dup p.value rest vv) in
        pair_of p first
          (load little true (some (drop (first.1.len + 8) (put little p.key cvt ++ later))) cvt dup)
          k w)
