-- ===== src/Status.antt =====
-- lib/chmstructure.h, the CHMPX status word (chmpxsts_t): five bit fields and the macros that read
-- and set them. A status is a 64-bit word; `~MASK` is the complement in 64 bits.
pub mod Change
pub mod Operate
pub mod Safe
pub mod Hashes
pub mod Moves
mod Tests
use chmpx.Base.{ℕ, ◌+◌, ◌-◌, ◌^◌, ◌<◌, ◌==◌, Bool, ◌&&◌, ◌||◌, List, [], ◌∷◌, any, bit_and, bit_or}

-- CHMPXSTS_MASK_*
abbrev pub mask_live : ℕ
mask_live = 0x1

abbrev pub mask_ring : ℕ
mask_ring = 0x30

abbrev pub mask_action : ℕ
mask_action = 0x300

abbrev pub mask_operate : ℕ
mask_operate = 0x3000

abbrev pub mask_suspend : ℕ
mask_suspend = 0x10000

abbrev pub mask_all : ℕ
mask_all = 0x13331

-- CHMPXSTS_VAL_*; the zero of each field has no name of its own here.
abbrev pub val_up : ℕ
val_up = 0x1

abbrev pub val_srvout : ℕ
val_srvout = 0x10

abbrev pub val_srvin : ℕ
val_srvin = 0x20

abbrev pub val_add : ℕ
val_add = 0x100

abbrev pub val_delete : ℕ
val_delete = 0x200

abbrev pub val_pending : ℕ
val_pending = 0x1000

abbrev pub val_doing : ℕ
val_doing = 0x2000

abbrev pub val_done : ℕ
val_done = 0x3000

-- The named statuses, each a sum of field values.
abbrev pub slave_up_normal : ℕ
slave_up_normal = val_up

abbrev pub slave_down_normal : ℕ
slave_down_normal = 0

abbrev pub srvout_up_normal : ℕ
srvout_up_normal = val_up + val_srvout

abbrev pub srvout_down_normal : ℕ
srvout_down_normal = val_srvout

abbrev pub srvin_up_normal : ℕ
srvin_up_normal = val_up + val_srvin

abbrev pub srvin_up_pending : ℕ
srvin_up_pending = val_up + val_srvin + val_pending

abbrev pub srvin_up_merging : ℕ
srvin_up_merging = val_up + val_srvin + val_doing

abbrev pub srvin_up_merged : ℕ
srvin_up_merged = val_up + val_srvin + val_done

abbrev pub srvin_up_addpending : ℕ
srvin_up_addpending = val_up + val_srvin + val_add + val_pending

abbrev pub srvin_up_adding : ℕ
srvin_up_adding = val_up + val_srvin + val_add + val_doing

abbrev pub srvin_up_added : ℕ
srvin_up_added = val_up + val_srvin + val_add + val_done

abbrev pub srvin_up_delpending : ℕ
srvin_up_delpending = val_up + val_srvin + val_delete + val_pending

abbrev pub srvin_up_deleting : ℕ
srvin_up_deleting = val_up + val_srvin + val_delete + val_doing

abbrev pub srvin_up_deleted : ℕ
srvin_up_deleted = val_up + val_srvin + val_delete + val_done

abbrev pub srvin_down_normal : ℕ
srvin_down_normal = val_srvin

abbrev pub srvin_down_delpending : ℕ
srvin_down_delpending = val_srvin + val_delete + val_pending

abbrev pub srvin_down_deleted : ℕ
srvin_down_deleted = val_srvin + val_delete + val_done

-- `status & ~mask` in 64 bits
unfoldable pub clear : ℕ → ℕ → ℕ
clear s mask = bit_and s (2 ^ 64 - 1 - mask)

-- SET_CHMPXSTS_NOSUP and SET_CHMPXSTS_SUSPEND
unfoldable pub set_nosup : ℕ → ℕ
unfolding clear
set_nosup s = clear s mask_suspend

unfoldable pub set_suspend : ℕ → ℕ
unfolding clear
set_suspend s = bit_or (clear s mask_suspend) mask_suspend

-- IS_CHMPXSTS_*
unfoldable pub is_down : ℕ → Bool
is_down s = 0 == bit_and s mask_live

unfoldable pub is_up : ℕ → Bool
is_up s = val_up == bit_and s mask_live

unfoldable pub is_slave : ℕ → Bool
is_slave s = 0 == bit_and s mask_ring

unfoldable pub is_srvout : ℕ → Bool
is_srvout s = val_srvout == bit_and s mask_ring

unfoldable pub is_srvin : ℕ → Bool
is_srvin s = val_srvin == bit_and s mask_ring

unfoldable pub is_server : ℕ → Bool
unfolding is_srvout is_srvin
is_server s = is_srvout s || is_srvin s

unfoldable pub is_noact : ℕ → Bool
is_noact s = 0 == bit_and s mask_action

unfoldable pub is_add : ℕ → Bool
is_add s = val_add == bit_and s mask_action

unfoldable pub is_delete : ℕ → Bool
is_delete s = val_delete == bit_and s mask_action

unfoldable pub is_pending : ℕ → Bool
is_pending s = val_pending == bit_and s mask_operate

unfoldable pub is_doing : ℕ → Bool
is_doing s = val_doing == bit_and s mask_operate

unfoldable pub is_done : ℕ → Bool
is_done s = val_done == bit_and s mask_operate

unfoldable pub is_nosup : ℕ → Bool
is_nosup s = 0 == bit_and s mask_suspend

unfoldable pub is_suspend : ℕ → Bool
is_suspend s = mask_suspend == bit_and s mask_suspend

unfoldable pub is_operating : ℕ → Bool
unfolding is_doing is_done
is_operating s = is_doing s || is_done s

-- IS_SAFE_CHMPXSTS_EX
abbrev pub safe_statuses : List ℕ
safe_statuses =
    slave_up_normal ∷ slave_down_normal ∷ srvin_up_normal ∷ srvin_up_pending ∷ srvin_up_merging
    ∷ srvin_up_merged ∷ srvin_up_addpending ∷ srvin_up_adding ∷ srvin_up_added ∷ srvin_up_delpending
    ∷ srvin_up_deleting ∷ srvin_up_deleted ∷ srvin_down_normal ∷ srvin_down_delpending
    ∷ srvin_down_deleted ∷ srvout_up_normal ∷ srvout_down_normal ∷ []

-- One of the listed statuses: the source's chain of comparisons.
abbrev pub is_one_of : List ℕ → ℕ → Bool
is_one_of vs s = any (λ v. v == s) vs

-- IS_SAFE_CHMPXSTS
unfoldable pub is_safe : ℕ → Bool
unfolding clear
is_safe s = 0 == clear s mask_all && is_one_of safe_statuses (clear s mask_suspend)

-- IS_CHMPXSTS_SERVICING, IS_CHMPXSTS_BASEHASH and IS_CHMPXSTS_PENDINGHASH
unfoldable pub is_servicing : ℕ → Bool
unfolding clear
is_servicing s =
    is_one_of (srvin_up_normal ∷ srvin_up_delpending ∷ srvin_up_deleting ∷ [])
      (clear s mask_suspend)

unfoldable pub is_basehash : ℕ → Bool
unfolding clear
is_basehash s =
    is_one_of
      (srvin_up_normal ∷ srvin_up_pending ∷ srvin_up_merging ∷ srvin_up_merged ∷ srvin_up_delpending
        ∷ srvin_up_deleting ∷ srvin_up_deleted ∷ srvin_down_normal ∷ srvin_down_delpending
        ∷ srvin_down_deleted ∷ [])
      (clear s mask_suspend)

unfoldable pub is_pendinghash : ℕ → Bool
unfolding clear
is_pendinghash s =
    is_one_of
      (srvin_up_normal ∷ srvin_up_pending ∷ srvin_up_merging ∷ srvin_up_merged ∷ srvin_up_addpending
        ∷ srvin_up_adding ∷ srvin_up_added ∷ srvin_down_normal ∷ [])
      (clear s mask_suspend)
