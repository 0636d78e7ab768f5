-- ===== src/Kvp/Tests.antt =====
-- A pair of two small buffers, and bytes written over one of them.
use chmpx.Base.{◌≡◌, refl, true, false, some, [], ◌∷◌, ◌++◌, arith}
use chmpx.Kvp.{
  BinData, KvPair, bytes_of, store_size, to_bytes, put, put_pair, load_pair, back, ahead, overwrite,
  append, write_at, make_room, resize, patch,
}
use chmpx.Kvp.Trip.{IsValid, PairLoaded, load_pair-put_pair}
use chmpx.Kvp.Patch.{Overwritten, placed, overwrite_lem, append_adds_nothing}

abbrev key_data : BinData
key_data = record { byptr = 107 ∷ 49 ∷ 0 ∷ []; len = 3; is_allocate = true }

abbrev value_data : BinData
value_data = record { byptr = 118 ∷ 0 ∷ []; len = 2; is_allocate = false }

abbrev pair : KvPair
pair = record { key = key_data; value = value_data }

key_data-IsValid : IsValid key_data
key_data-IsValid = record { small = omega arith; room = omega arith }

value_data-IsValid : IsValid value_data
value_data-IsValid = record { small = omega arith; room = omega arith }

load_pair-put_pair_example :
    PairLoaded pair (load_pair true true (some (put_pair true pair true ++ 7 ∷ [])) true false)
load_pair-put_pair_example =
    load_pair-put_pair true true false pair (7 ∷ []) key_data-IsValid value_data-IsValid

overwrite_lem_example :
    Overwritten key_data
      (placed (1 ∷ 2 ∷ 3 ∷ []) (back 1))
      (overwrite true (λ n. n) (1 ∷ 2 ∷ 3 ∷ []) (back 1) key_data)
overwrite_lem_example = overwrite_lem (λ n. n) (1 ∷ 2 ∷ 3 ∷ []) (back 1) key_data key_data-IsValid

append_adds_nothing_example :
    ((append true (λ n. n) (1 ∷ 2 ∷ []) value_data).0 ≡ true)
    × ((append true (λ n. n) (1 ∷ 2 ∷ []) value_data).1.len ≡ value_data.len)
    × (bytes_of (append true (λ n. n) (1 ∷ 2 ∷ []) value_data).1 ≡ bytes_of value_data)
append_adds_nothing_example =
    append_adds_nothing (λ n. n) (1 ∷ 2 ∷ []) value_data value_data-IsValid

-- A pair in a message: the length of the key, the key, the length of the value, the value
put_pair_bytes :
    put_pair true (record { key = value_data; value = value_data }) true
    ≡ 0 ∷ 0 ∷ 0 ∷ 0 ∷ 0 ∷ 0 ∷ 0 ∷ 2 ∷ 118 ∷ 0 ∷ 0 ∷ 0 ∷ 0 ∷ 0 ∷ 0 ∷ 0 ∷ 0 ∷ 2 ∷ 118 ∷ 0 ∷ []
unfolding put_pair put store_size to_bytes
put_pair_bytes = refl

-- Two bytes after the end of a buffer: its length leaves them out.
overwrite_after_end :
    bytes_of (overwrite true (λ n. n) (1 ∷ 2 ∷ []) (ahead 3) key_data).1 ≡ 107 ∷ 49 ∷ 0 ∷ []
unfolding overwrite write_at make_room resize patch
overwrite_after_end = refl
