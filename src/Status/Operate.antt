-- ===== src/Status/Operate.antt =====
-- lib/chmstructure.h, the SET_CHMPXSTS_* macros for the action and the operation of a status.
use chmpx.Base.{ℕ, bit_or}
use chmpx.Status.{clear, mask_action, mask_operate, val_pending, val_doing, val_done}

unfoldable pub set_chmpxsts_noact : ℕ → ℕ
unfolding clear
set_chmpxsts_noact s = clear s mask_action

unfoldable pub set_chmpxsts_nothing : ℕ → ℕ
unfolding clear
set_chmpxsts_nothing s = clear s mask_operate

unfoldable pub set_chmpxsts_pending : ℕ → ℕ
unfolding clear
set_chmpxsts_pending s = bit_or (clear s mask_operate) val_pending

unfoldable pub set_chmpxsts_doing : ℕ → ℕ
unfolding clear
set_chmpxsts_doing s = bit_or (clear s mask_operate) val_doing

unfoldable pub set_chmpxsts_done : ℕ → ℕ
unfolding clear
set_chmpxsts_done s = bit_or (clear s mask_operate) val_done
