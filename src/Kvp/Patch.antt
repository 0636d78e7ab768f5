-- ===== src/Kvp/Patch.antt =====
-- Bytes written over a buffer by ChmBinData::Overwrite, inside it and past its end.
use chmpx.Base.{
  ℕ, zero, suc, ◌+◌, ◌≤◌, ◌≡◌, refl, sym, subst, ap, ◌∙◌, Bool, true, false, not, ◌&&◌, ◌||◌, ◌==◌,
  ltb, leb, if◌then◌else◌, List, [], ◌∷◌, ◌++◌, length, take, drop, arith, Bool-cases, inl, inr,
}
use chmpx.Kvp.{
  BinData, bytes_of, Offset, ahead, back, resize, patch, make_room, write_at, overwrite, append,
}
use chmpx.Kvp.Trip.{IsValid, length-take, take_whole, take-append}

take-resize :
    (junk : ℕ → ℕ) (xs : List ℕ) (n m : ℕ)
    → n ≤ m
    → n ≤ length xs
    → take n (resize junk m xs) ≡ take n xs
unfolding resize
take-resize junk xs zero m h k = refl
take-resize junk [] (suc n) m h k = absurd (omega arith)
take-resize junk (x ∷ xs) (suc n) zero h k = absurd (omega arith)
take-resize junk (x ∷ xs) (suc n) (suc m) h k =
    ap (λ l. x ∷ l) (take-resize junk xs n m (omega arith) (omega arith))

length-resize : (junk : ℕ → ℕ) (xs : List ℕ) (m : ℕ) → length (resize junk m xs) ≡ m
unfolding resize
length-resize junk xs zero = refl
length-resize junk [] (suc m) = ap suc (length-resize junk [] m)
length-resize junk (x ∷ xs) (suc m) = ap suc (length-resize junk xs m)

take-take : (xs : List ℕ) (n : ℕ) → take n (take n xs) ≡ take n xs
take-take xs zero = refl
take-take [] (suc n) = refl
take-take (x ∷ xs) (suc n) = ap (λ l. x ∷ l) (take-take xs n)

-- Bytes written over the first ones
take_over :
    (bytes xs : List ℕ) (n : ℕ)
    → n ≤ length xs
    → take n (bytes ++ drop (length bytes) xs) ≡ take n (bytes ++ drop (length bytes) (take n xs))
take_over [] xs n k = sym (take-take xs n)
take_over (b ∷ bytes) xs zero k = refl
take_over (b ∷ bytes) [] (suc n) k = absurd (omega arith)
take_over (b ∷ bytes) (x ∷ xs) (suc n) k = ap (λ l. b ∷ l) (take_over bytes xs n (omega arith))

patch-cons :
    (x : ℕ) (xs bytes : List ℕ) (offset : ℕ)
    → patch (x ∷ xs) (suc offset) bytes ≡ x ∷ patch xs offset bytes
unfolding patch
patch-cons x xs bytes offset =
    let e : suc offset + length bytes ≡ suc (offset + length bytes) = omega arith in
    ap (λ m. x ∷ (take offset xs ++ (bytes ++ drop m (x ∷ xs)))) e

patch-start : (xs bytes : List ℕ) → patch xs zero bytes ≡ bytes ++ drop (length bytes) xs
unfolding patch
patch-start xs bytes =
    let e : zero + length bytes ≡ length bytes = omega arith in ap (λ m. bytes ++ drop m xs) e

take-patch :
    (xs bytes : List ℕ) (offset n : ℕ)
    → n ≤ length xs
    → take n (patch xs offset bytes) ≡ take n (patch (take n xs) offset bytes)
take-patch xs bytes zero n k =
    ap (take n) (patch-start xs bytes)
    ∙ (take_over bytes xs n k ∙ ap (take n) (sym (patch-start (take n xs) bytes)))
take-patch xs bytes (suc offset) zero k = refl
take-patch [] bytes (suc offset) (suc n) k = absurd (omega arith)
take-patch (x ∷ xs) bytes (suc offset) (suc n) k =
    ap (take (suc n)) (patch-cons x xs bytes offset)
    ∙ (ap (λ l. x ∷ l) (take-patch xs bytes offset n (omega arith))
        ∙ ap (take (suc n)) (sym (patch-cons x (take n xs) bytes offset)))

-- A buffer that begins with the bytes of another, and has at least `n` of them
pub record Begins (b : BinData) (newlen : ℕ) (buffer : List ℕ) : Type 0 where
  pub same : take b.len buffer ≡ bytes_of b
  pub room : newlen ≤ length buffer

make_room-Begins :
    (junk : ℕ → ℕ) (newlen : ℕ) (b : BinData)
    → IsValid b
    → b.len ≤ newlen
    → Begins b newlen (make_room junk newlen b)
unfolding make_room
make_room-Begins junk newlen b v h = elim (Bool-cases b.is_allocate) [
  | inl e ↦ elim (Bool-cases (newlen == b.len)) [
    | inl f ↦ rw (e, f) (record { same = refl; room = ground arith })
    | inr f ↦
        rw (e, f)
          (record {
            same = take-resize junk b.byptr b.len newlen h v.room;
            room = omega (arith, length-resize junk b.byptr newlen);
          })
  ]
  | inr e ↦ rw e (record {
    same =
        take-resize junk (bytes_of b) b.len newlen h
          (omega (arith, length-take b.byptr b.len v.room))
        ∙ take_whole (bytes_of b) b.len (sym (length-take b.byptr b.len v.room));
    room = omega (arith, length-resize junk (bytes_of b) newlen);
  })
]

-- The visible bytes after a write, when memory can be allocated
never_refused : (x : Bool) → (x && not true) ≡ false
never_refused true = refl
never_refused false = refl

-- The length of the buffer during a write
abbrev new_length : ℕ → ℕ → ℕ
new_length len end = if ltb len end then end else len

new_length_covers : (len end : ℕ) → (len ≤ new_length len end) × (end ≤ new_length len end)
new_length_covers len end = ground arith

abbrev written : (ℕ → ℕ) → List ℕ → ℕ → BinData → List ℕ
written junk bytes offset b =
    patch (make_room junk (new_length b.len (offset + length bytes)) b) offset bytes

bytes_of-write_at :
    (junk : ℕ → ℕ) (bytes : List ℕ) (offset : ℕ) (b : BinData)
    → write_at true junk bytes offset b
      ≡ (true, record b { byptr = written junk bytes offset b; is_allocate = true })
unfolding write_at
bytes_of-write_at junk bytes offset b =
    rw
      (never_refused (not (new_length b.len (offset + length bytes) == b.len) || not b.is_allocate))
      refl

take-written :
    (junk : ℕ → ℕ) (bytes : List ℕ) (offset : ℕ) (b : BinData)
    → IsValid b
    → take b.len (written junk bytes offset b) ≡ take b.len (patch (bytes_of b) offset bytes)
take-written junk bytes offset b v =
    let covers = new_length_covers b.len (offset + length bytes) in
    let m = make_room-Begins junk (new_length b.len (offset + length bytes)) b v covers.0 in
    take-patch (make_room junk (new_length b.len (offset + length bytes)) b) bytes offset b.len
      (omega (arith, m.room, covers.0))
    ∙ ap (λ xs. take b.len (patch xs offset bytes)) m.same

-- What of some bytes falls at or after the start, and where
abbrev pub placed : List ℕ → Offset → ℕ × List ℕ
placed bytes (ahead offset) = (offset, bytes)
placed bytes (back offset) = (0, drop offset bytes)

pub record Overwritten (b : BinData) (place : ℕ × List ℕ) (out : Bool × BinData) : Type 0 where
  pub done : out.0 ≡ true
  pub len : out.1.len ≡ b.len
  pub bytes : bytes_of out.1 ≡ take b.len (patch (bytes_of b) place.0 place.1)

write_at_lem :
    (junk : ℕ → ℕ) (bytes : List ℕ) (offset : ℕ) (b : BinData)
    → IsValid b
    → Overwritten b (offset, bytes) (write_at true junk bytes offset b)
write_at_lem junk bytes offset b v =
    rw (bytes_of-write_at junk bytes offset b)
      (record { done = refl; len = refl; bytes = take-written junk bytes offset b v })

drop_all : (xs : List ℕ) (n : ℕ) → length xs ≤ n → drop n xs ≡ []
drop_all [] zero h = refl
drop_all [] (suc n) h = refl
drop_all (x ∷ xs) zero h = absurd (omega arith)
drop_all (x ∷ xs) (suc n) h = drop_all xs n (omega arith)

split_back : (xs : List ℕ) (n : ℕ) → take n xs ++ drop n xs ≡ xs
split_back xs zero = refl
split_back [] (suc n) = refl
split_back (x ∷ xs) (suc n) = ap (λ l. x ∷ l) (split_back xs n)

-- Nothing is written.
nothing_written :
    (b : BinData) (offset : ℕ) (bytes : List ℕ)
    → bytes ≡ []
    → Overwritten b (offset, bytes) (true, b)
unfolding patch
nothing_written b offset bytes e =
    let end : offset + 0 ≡ offset = omega arith in
    let same : patch (bytes_of b) offset [] ≡ bytes_of b =
      ap (λ n. take offset (bytes_of b) ++ drop n (bytes_of b)) end
      ∙ split_back (bytes_of b) offset in
    subst (λ xs. Overwritten b (offset, xs) (true, b)) (sym e)
      (record {
        done = refl;
        len = refl;
        bytes = sym (ap (take b.len) same ∙ take-take b.byptr b.len);
      })

none_of_length : (xs : List ℕ) → (length xs == 0) ≡ true → xs ≡ []
none_of_length [] e = refl
none_of_length (x ∷ xs) e = absurd (ground arith)

-- When memory can be allocated, ChmBinData::Overwrite into a valid buffer (a length below 2^64 and
-- as many bytes in memory), at any offset before, in or after it, returns true and leaves the
-- length as it was; the bytes the buffer then gives access to are those it had with the new ones
-- put at the offset (the ones that fall before the start left out), cut off at the old length.
pub overwrite_lem :
    (junk : ℕ → ℕ) (bytes : List ℕ) (offset : Offset) (b : BinData)
    → IsValid b
    → Overwritten b (placed bytes offset) (overwrite true junk bytes offset b)
unfolding overwrite
overwrite_lem junk bytes (ahead offset) b v = elim (Bool-cases (length bytes == 0)) [
  | inl e ↦ rw e (nothing_written b offset bytes (none_of_length bytes e))
  | inr e ↦ rw e (write_at_lem junk bytes offset b v)
]
overwrite_lem junk bytes (back offset) b v = elim (Bool-cases (leb (length bytes) offset)) [
  | inl e ↦ rw e (nothing_written b 0 (drop offset bytes) (drop_all bytes offset (ground arith)))
  | inr e ↦ rw e (write_at_lem junk (drop offset bytes) 0 b v)
]

take-patch_end :
    (xs bytes : List ℕ) (n : ℕ) → n ≤ length xs → take n (patch (take n xs) n bytes) ≡ take n xs
unfolding patch
take-patch_end xs bytes n h =
    let count : n ≡ length (take n (take n xs)) =
      sym (ap length (take-take xs n) ∙ length-take xs n h) in
    take-append (take n (take n xs)) (bytes ++ drop (n + length bytes) (take n xs)) n count
    ∙ take-take xs n

-- ChmBinData::Append to a valid buffer (a length below 2^64 and as many bytes in memory) returns
-- true when memory can be allocated, and appends nothing that can be seen: the length and the bytes
-- the buffer gives access to are those of before.
pub append_adds_nothing :
    (junk : ℕ → ℕ) (bytes : List ℕ) (b : BinData)
    → IsValid b
    → ((append true junk bytes b).0 ≡ true)
      × ((append true junk bytes b).1.len ≡ b.len)
      × (bytes_of (append true junk bytes b).1 ≡ bytes_of b)
unfolding append
append_adds_nothing junk bytes b v =
    let o = overwrite_lem junk bytes (ahead b.len) b v in
    (o.done, o.len, o.bytes ∙ take-patch_end b.byptr bytes b.len v.room)
