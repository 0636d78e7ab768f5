-- ===== src/Log/Read.antt =====
-- What the loop of Get copies: the wanted entries from the oldest to the newest.
use chmpx.Base.{
  ℕ, zero, suc, ◌+◌, ◌-◌, ◌≤◌, ◌<◌, ◌≡◌, refl, sym, ap, ◌∙◌, Bool, true, false, ◌&&◌, ◌||◌, ◌==◌,
  leb, if◌then◌else◌, some, List, [], ◌∷◌, ◌++◌, arith, length, get_elem?, get_elem?-lt, take, drop,
  dec_lt, Bool-cases, inl, inr,
}
use chmpx.Log.{LogRaw, Log, is_wanted, read_at, get_loop}

abbrev pub filter : (LogRaw → Bool) → List LogRaw → List LogRaw
filter w [] = []
filter w (e ∷ es) = if w e then e ∷ filter w es else filter w es

take-nil : (n : ℕ) → take {A = LogRaw} n [] ≡ []
take-nil zero = refl
take-nil (suc n) = refl

drop_at :
    (xs : List LogRaw) (i : ℕ) (e : LogRaw)
    → get_elem? xs i ≡ some e
    → drop i xs ≡ e ∷ drop (suc i) xs
drop_at [] i e h = cc
drop_at (x ∷ xs) zero e h = ground arith
drop_at (x ∷ xs) (suc i) e h = drop_at xs i e h

pub drop_all : (xs : List LogRaw) (n : ℕ) → length xs ≤ n → drop n xs ≡ []
drop_all [] zero h = refl
drop_all [] (suc n) h = refl
drop_all (x ∷ xs) zero h = absurd (omega arith)
drop_all (x ∷ xs) (suc n) h = drop_all xs n (omega arith)

-- One entry in front.
abbrev kept : (LogRaw → Bool) → LogRaw → List LogRaw
kept w e = if w e then e ∷ [] else []

take_kept :
    (w : LogRaw → Bool) (e : LogRaw) (es : List LogRaw) (left : ℕ)
    → (if left == 0 then [] else kept w e ++ take (left - length (kept w e)) (filter w es))
      ≡ take left (filter w (e ∷ es))
take_kept w e es zero = refl
take_kept w e es (suc left) =
    let some_left : (suc left == 0) ≡ false = ground arith in
    let one : suc left - 1 ≡ left = omega arith in
    let no_one : suc left - 0 ≡ suc left = omega arith in
    elim (Bool-cases (w e)) [
      | inl h ↦ rw (h, some_left, one) refl
      | inr h ↦ rw (h, some_left, no_one) refl
    ]

module _ (d v : ℕ) (log : Log) where
  wanted : LogRaw → Bool
  wanted e = is_wanted d v e

  read_kept :
      (pos : ℕ) (e : LogRaw)
      → get_elem? log.area pos ≡ some e
      → read_at d v pos log ≡ kept (is_wanted d v) e
  unfolding read_at
  read_kept pos e h = ground (arith, h)

  -- A round of the loop at a position of the array.
  loop_step :
      (fuel : ℕ) (c : Bool) (cur left : ℕ) (e : LogRaw)
      → get_elem? log.area (if leb log.max_log_count cur then 0 else cur) ≡ some e
      → (c && (leb log.next_pos cur || leb log.max_log_count cur)) ≡ false
      → get_loop (suc fuel) d v c cur left log ≡ (
          let pos = if leb log.max_log_count cur then 0 else cur in
          if left == 0
          then []
          else kept (is_wanted d v) e
            ++ get_loop fuel d v
                (c || leb log.max_log_count cur)
                (suc pos)
                (left - length (kept (is_wanted d v) e))
                log)
  unfolding get_loop
  loop_step fuel c cur left e h k = rw (read_kept _ e h) (ground (arith, k))

  -- A round in the middle of the array, and one that starts again at its first position.
  step_at :
      (fuel : ℕ) (c : Bool) (cur left : ℕ) (e : LogRaw) (es : List LogRaw)
      → get_elem? log.area cur ≡ some e
      → cur < log.max_log_count
      → (c && leb log.next_pos cur) ≡ false
      → ((l : ℕ) → get_loop fuel d v c (suc cur) l log ≡ take l (filter (is_wanted d v) es))
      → get_loop (suc fuel) d v c cur left log ≡ take left (filter (is_wanted d v) (e ∷ es))
  step_at fuel c cur left e es h small k ih =
      let inside : leb log.max_log_count cur ≡ false = ground arith in
      let same : (c || false) ≡ c = ground arith in
      loop_step fuel c cur left e (rw inside h) (rw inside (ground (arith, k)))
      ∙ rw (inside, same, ih) (take_kept (is_wanted d v) e es left)

  step_round :
      (fuel cur left : ℕ) (e : LogRaw) (es : List LogRaw)
      → get_elem? log.area 0 ≡ some e
      → log.max_log_count ≤ cur
      → ((l : ℕ) → get_loop fuel d v true 1 l log ≡ take l (filter (is_wanted d v) es))
      → get_loop (suc fuel) d v false cur left log ≡ take left (filter (is_wanted d v) (e ∷ es))
  step_round fuel cur left e es h large ih =
      let outside : leb log.max_log_count cur ≡ true = ground arith in
      loop_step fuel false cur left e (rw outside h) refl
      ∙ rw (outside, ih) (take_kept (is_wanted d v) e es left)

  loop_done :
      (fuel cur left : ℕ) → log.next_pos ≤ cur → get_loop (suc fuel) d v true cur left log ≡ []
  unfolding get_loop
  loop_done fuel cur left h = ground arith

  module _ (size : length log.area ≡ log.max_log_count)
      (inside : log.next_pos ≤ log.max_log_count) where
    circled_more :
        (fuel cur left : ℕ) (e : LogRaw)
        → cur < log.next_pos
        → get_elem? log.area cur ≡ some e
        → ((l : ℕ)
            → get_loop fuel d v true (suc cur) l log
              ≡ take l (
                  filter (is_wanted d v) (take (log.next_pos - suc cur) (drop (suc cur) log.area))))
        → get_loop (suc fuel) d v true cur left log
          ≡ take left (filter (is_wanted d v) (take (log.next_pos - cur) (drop cur log.area)))
    circled_more fuel cur left e lt at_cur ih =
        let more : log.next_pos - cur ≡ suc (log.next_pos - suc cur) = omega arith in
        let before : leb log.next_pos cur ≡ false = ground arith in
        rw (more, drop_at log.area cur e at_cur)
          (step_at fuel true cur left e _ at_cur (omega arith) before ih)

    -- The second part of the loop: from the position up to the next one to be written.
    pub loop_circled :
        (fuel cur left : ℕ)
        → log.next_pos - cur < fuel
        → get_loop fuel d v true cur left log
          ≡ take left (filter (is_wanted d v) (take (log.next_pos - cur) (drop cur log.area)))
    loop_circled zero cur left h = absurd (omega arith)
    loop_circled (suc fuel) cur left h = elim (dec_lt cur log.next_pos) [
      | no ge ↦
          let none_left : log.next_pos - cur ≡ 0 = omega arith in
          loop_done fuel cur left (omega arith) ∙ rw none_left (sym (take-nil left))
      | yes lt ↦
          let (e, at_cur) = get_elem?-lt log.area cur (omega arith) in
          circled_more fuel cur left e lt at_cur (λ l. loop_circled fuel (suc cur) l (omega arith))
    ]

    round_more :
        (fuel cur left : ℕ) (e : LogRaw)
        → cur ≡ log.max_log_count
        → get_elem? log.area 0 ≡ some e
        → ((l : ℕ)
            → get_loop fuel d v true 1 l log
              ≡ take l (filter (is_wanted d v) (take (log.next_pos - 1) (drop 1 log.area))))
        → get_loop (suc fuel) d v false cur left log
          ≡ take left
              (filter (is_wanted d v) (drop cur log.area ++ take (suc (log.next_pos - 1)) log.area))
    round_more fuel cur left e eq at_0 ih =
        let nothing : drop cur log.area ≡ [] = drop_all log.area cur (omega arith) in
        let whole : log.area ≡ e ∷ drop 1 log.area = drop_at log.area 0 e at_0 in
        rw nothing (
          step_round fuel cur left e _ at_0 (omega arith) ih
          ∙ ap (λ xs. take left (filter (is_wanted d v) (take (suc (log.next_pos - 1)) xs)))
              (sym whole))

    -- The whole loop of a log that has gone round: from the position up to the end of the array, then
    -- from its first position on, which is read without a look at the position to be written next.
    pub loop_open :
        (fuel cur left : ℕ)
        → 0 < log.max_log_count
        → cur ≤ log.max_log_count
        → suc (log.max_log_count + log.next_pos) < fuel + cur
        → get_loop fuel d v false cur left log
          ≡ take left
              (filter (is_wanted d v) (drop cur log.area ++ take (suc (log.next_pos - 1)) log.area))
    loop_open zero cur left pos small h = absurd (omega arith)
    loop_open (suc fuel) cur left pos small h = elim (dec_lt cur log.max_log_count) [
      | yes lt ↦
          let (e, at_cur) = get_elem?-lt log.area cur (omega arith) in
          rw (drop_at log.area cur e at_cur) (
            step_at fuel false cur left e _ at_cur lt refl
              (λ l. loop_open fuel (suc cur) l pos (omega arith) (omega arith)))
      | no ge ↦
          let (e, at_0) = get_elem?-lt log.area 0 (omega arith) in
          round_more fuel cur left e (omega arith) at_0 (λ l. loop_circled fuel 1 l (omega arith))
    ]
