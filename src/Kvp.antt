-- ===== src/Kvp.antt =====
-- lib/chmkvp.cc, ChmBinData and ChmKVPair: buffers of bytes and pairs of them, which are written to
-- and read from a message. A byte is a number below 256. `is_little` tells whether the host stores
-- the lowest byte of a word first, `has_memory` whether an allocation succeeds, and `junk` is what
-- new memory holds.
pub mod Words
pub mod Trip
pub mod Patch
mod Tests
use chmpx.Base.{
  ℕ, zero, suc, ◌+◌, ◌-◌, ◌*◌, ◌/◌, ◌%◌, ◌^◌, Bool, true, false, not, ◌&&◌, ◌||◌, ◌==◌, leb, ltb,
  if◌then◌else◌, Option, none, some, List, [], ◌∷◌, ◌++◌, length, take, drop,
}

-- The k bytes of a word, the highest first, and back
unfoldable pub to_bytes : ℕ → ℕ → List ℕ
to_bytes zero n = []
to_bytes (suc k) n = n / 256 ^ k % 256 ∷ to_bytes k n

unfoldable pub of_bytes : ℕ → List ℕ → ℕ
of_bytes acc [] = acc
of_bytes acc (b ∷ bs) = of_bytes (acc * 256 + b) bs

unfoldable pub turn : List ℕ → List ℕ
turn [] = []
turn (b ∷ bs) = turn bs ++ b ∷ []

-- A size_t in memory, after htobe64 or as it is, and back
unfoldable pub store_size : Bool → Bool → ℕ → List ℕ
store_size is_little is_cvt n =
    if is_cvt || not is_little then to_bytes 8 n else turn (to_bytes 8 n)

unfoldable pub load_size : Bool → Bool → List ℕ → ℕ
load_size is_little is_cvt bytes =
    if is_cvt || not is_little then of_bytes 0 bytes else of_bytes 0 (turn bytes)

-- ChmBinData: what byptr points to, its length and whether it was allocated; NULL is the empty list.
pub record BinData : Type 0 where
  pub byptr : List ℕ
  pub len : ℕ
  pub is_allocate : Bool

abbrev pub empty : BinData
empty = record { byptr = []; len = 0; is_allocate = false }

-- The bytes that ChmBinData::Get gives access to
abbrev pub bytes_of : BinData → List ℕ
bytes_of b = take b.len b.byptr

-- ChmBinData::Set(bydata, bylength, is_duplicate)
unfoldable pub set_data : Bool → List ℕ → Bool → BinData → Bool × BinData
set_data has_memory bydata is_duplicate b =
    if length bydata == 0
    then (true, empty)
    else (if is_duplicate && not has_memory
        then (false, empty)
        else (true, record { byptr = bydata; len = length bydata; is_allocate = is_duplicate }))

-- ChmBinData::Load; `none` is the null pointer.
unfoldable pub load : Bool → Bool → Option (List ℕ) → Bool → Bool → Bool × BinData
load is_little has_memory none is_cvt is_duplicate = (true, empty)
load is_little has_memory (some bydata) is_cvt is_duplicate =
    let n = load_size is_little is_cvt (take 8 bydata) in
    if n == 0
    then (true, empty)
    else (if is_duplicate && not has_memory
        then (false, empty)
        else (true, record { byptr = take n (drop 8 bydata); len = n; is_allocate = is_duplicate }))

-- ChmBinData::Put: what is written to the memory
unfoldable pub put : Bool → BinData → Bool → List ℕ
put is_little b is_cvt = store_size is_little is_cvt b.len ++ bytes_of b

-- An offset: forward, or back before the start.
pub data Offset : Type 0 where
  ahead back : ℕ → Offset

unfoldable pub resize : (ℕ → ℕ) → ℕ → List ℕ → List ℕ
resize junk zero bytes = []
resize junk (suc n) [] = junk n ∷ resize junk n []
resize junk (suc n) (b ∷ bs) = b ∷ resize junk n bs

-- memcpy to a place in a buffer
unfoldable pub patch : List ℕ → ℕ → List ℕ → List ℕ
patch buffer offset bytes = take offset buffer ++ (bytes ++ drop (offset + length bytes) buffer)

-- The allocation in ChmBinData::Overwrite: the buffer with room for `newlen` bytes
unfoldable pub make_room : (ℕ → ℕ) → ℕ → BinData → List ℕ
make_room junk newlen b =
    if not b.is_allocate
    then resize junk newlen (take b.len b.byptr)
    else (if newlen == b.len then b.byptr else resize junk newlen b.byptr)

-- ChmBinData::Overwrite: the length stays as it was.
unfoldable pub write_at : Bool → (ℕ → ℕ) → List ℕ → ℕ → BinData → Bool × BinData
write_at has_memory junk bytes offset b =
    let end = offset + length bytes in
    let newlen = if ltb b.len end then end else b.len in
    let written = patch (make_room junk newlen b) offset bytes in
    if (not (newlen == b.len) || not b.is_allocate) && not has_memory
    then (false, if b.is_allocate then record b { byptr = [] } else b)
    else (true, record b { byptr = written; is_allocate = true })

unfoldable pub overwrite : Bool → (ℕ → ℕ) → List ℕ → Offset → BinData → Bool × BinData
overwrite has_memory junk bytes (ahead offset) b =
    if length bytes == 0 then (true, b) else write_at has_memory junk bytes offset b
overwrite has_memory junk bytes (back offset) b =
    if leb (length bytes) offset
    then (true, b)
    else write_at has_memory junk (drop offset bytes) 0 b

-- ChmBinData::Append
unfoldable pub append : Bool → (ℕ → ℕ) → List ℕ → BinData → Bool × BinData
append has_memory junk bytes b = overwrite has_memory junk bytes (ahead b.len) b

-- ChmKVPair
pub record KvPair : Type 0 where
  pub key : BinData
  pub value : BinData

abbrev pub empty_pair : KvPair
empty_pair = record { key = empty; value = empty }

-- ChmKVPair::Load
unfoldable pub load_pair : Bool → Bool → Option (List ℕ) → Bool → Bool → Bool × KvPair
load_pair is_little has_memory bydata is_cvt is_duplicate =
    let (key_done, k) = load is_little has_memory bydata is_cvt is_duplicate in
    let rest : Option (List ℕ) = elim bydata [
      | none ↦ none
      | some bytes ↦ some (drop (k.len + 8) bytes)
    ] in
    let (value_done, v) = load is_little has_memory rest is_cvt is_duplicate in
    if key_done && value_done then (true, record { key = k; value = v }) else (false, empty_pair)

-- ChmKVPair::Put
unfoldable pub put_pair : Bool → KvPair → Bool → List ℕ
put_pair is_little p is_cvt = put is_little p.key is_cvt ++ put is_little p.value is_cvt
