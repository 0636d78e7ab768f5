-- ===== src/Log/Write.antt =====
-- What the log holds, and what Get returns of it.
use chmpx.Base.{
  ℕ, suc, ◌+◌, ◌-◌, ◌<◌, ◌≡◌, refl, ap, ◌∙◌, true, false, not, ◌&&◌, ◌==◌, ==_iff, ltb,
  if◌then◌else◌, some, List, ◌++◌, arith, length, take, drop, Bool-cases, inl, inr,
}
use chmpx.Log.{LogRaw, Log, is_wanted, get_loop, get_log, is_round, is_safe_chmlog_mask}
use native.Mathlib.Nat.{sub-zero}
use chmpx.Log.Read.{filter, loop_circled, loop_open}

-- The array has its size, and the position is one of it.
pub record Sound (log : Log) : Type 0 where
  pub size : length log.area ≡ log.max_log_count
  pub inside : log.next_pos < log.max_log_count
  pub enabled : log.enable ≡ true

-- The entries from the oldest to the newest.
abbrev pub in_order : Log → List LogRaw
in_order log =
    if is_round log
    then drop log.next_pos log.area ++ take log.next_pos log.area
    else take log.next_pos log.area

abbrev pub capped : ℕ → Log → ℕ
capped arrsize log = if ltb log.max_log_count arrsize then log.max_log_count else arrsize

get_log-loop :
    (arrsize d v : ℕ) (log : Log)
    → is_safe_chmlog_mask d ≡ true
    → is_safe_chmlog_mask v ≡ true
    → get_log arrsize d v log
      ≡ some (
          get_loop
            (suc (log.max_log_count + log.max_log_count))
            d
            v
            (not (is_round log))
            (if is_round log then log.next_pos else 0)
            (capped arrsize log)
            log)
unfolding get_log
get_log-loop arrsize d v log h k = ground (arith, h, k)

take_pred : (n : ℕ) (xs : List LogRaw) → 0 < n → take (suc (n - 1)) xs ≡ take n xs
take_pred n xs h = let same : suc (n - 1) ≡ n = omega arith in ap (λ m. take m xs) same

-- When the array has its size and the next position is one of it, the masks are safe, and the log
-- has not just come back to its first position, Get returns the wanted entries from the oldest to
-- the newest, as many as there is room for.
pub get_log-in_order :
    (arrsize dirmask devmask : ℕ) (log : Log)
    → Sound log
    → is_safe_chmlog_mask dirmask ≡ true
    → is_safe_chmlog_mask devmask ≡ true
    → (is_round log && log.next_pos == 0) ≡ false
    → get_log arrsize dirmask devmask log
      ≡ some (take (capped arrsize log) (filter (is_wanted dirmask devmask) (in_order log)))
get_log-in_order arrsize d v log s h k nz = elim (Bool-cases (is_round log)) [
  | inl e ↦
      let pos : 0 < log.next_pos = ground (arith, e, nz) in
      get_log-loop arrsize d v log h k
      ∙ rw e (
          ap some (
            loop_open d v log s.size (omega (arith, s.inside)) _ log.next_pos (capped arrsize log)
              (omega (arith, s.inside)) (omega (arith, s.inside)) (omega (arith, s.inside))
            ∙ rw (take_pred log.next_pos log.area pos) refl))
  | inr e ↦
      get_log-loop arrsize d v log h k
      ∙ rw e (
          ap some (
            loop_circled d v log s.size (omega (arith, s.inside)) _ 0 (capped arrsize log)
              (omega (arith, s.inside))
            ∙ rw (sub-zero log.next_pos) refl))
]

-- The bug: when the log has just come back to its first position, the entries are followed by the
-- first of them once more, if it is wanted and there is room.
pub get_log_repeats :
    (arrsize dirmask devmask : ℕ) (log : Log)
    → Sound log
    → is_safe_chmlog_mask dirmask ≡ true
    → is_safe_chmlog_mask devmask ≡ true
    → (is_round log && log.next_pos == 0) ≡ true
    → get_log arrsize dirmask devmask log
      ≡ some (
          take
            (capped arrsize log)
            (filter (is_wanted dirmask devmask) (log.area ++ take 1 log.area)))
get_log_repeats arrsize d v log s h k z =
    let e : is_round log ≡ true = ground (arith, z) in
    let at_0 : log.next_pos ≡ 0 = (==_iff log.next_pos 0).0 (ground (arith, z)) in
    get_log-loop arrsize d v log h k
    ∙ rw e (
        ap some (
          loop_open d v log s.size (omega (arith, s.inside)) _ log.next_pos (capped arrsize log)
            (omega (arith, s.inside)) (omega (arith, s.inside)) (omega (arith, s.inside))
          ∙ rw at_0 refl))
