-- ===== src/Log/Last.antt =====
-- The log keeps the newest entries, as many as the array has room for.
use chmpx.Base.{
  ℕ, zero, suc, ◌+◌, ◌-◌, ◌≤◌, ◌<◌, ◌≡◌, ◌≢◌, refl, sym, ap, subst, ◌∙◌, Bool, true, false, not,
  ◌&&◌, ◌==◌, ==_iff, leb, if◌then◌else◌, List, [], ◌∷◌, ◌++◌, arith, length, length-append,
  length-set, get_elem?-set_self, get_elem?-set_ne, set, take, drop, dec_lt, all, &&-eq-true,
  Bool-cases, inl, inr,
}
use mathlib.Core.List.{append-nil, append_assoc}
use native.Mathlib.Nat.{suc-add}
use chmpx.Log.{
  LogRaw, Log, blank, is_round, is_safe_chmlog_type, enable_log, add_log, type_notassigned,
}
use chmpx.Log.Read.{drop_all}
use chmpx.Log.Write.{Sound, in_order}

take-set :
    (xs : List LogRaw) (i : ℕ) (e : LogRaw)
    → i < length xs
    → take (suc i) (set xs i e) ≡ take i xs ++ e ∷ []
take-set [] i e h = absurd (omega arith)
take-set (x ∷ xs) zero e h = refl
take-set (x ∷ xs) (suc i) e h = ap (λ ys. x ∷ ys) (take-set xs i e (omega arith))

drop-set : (xs : List LogRaw) (i : ℕ) (e : LogRaw) → drop (suc i) (set xs i e) ≡ drop (suc i) xs
drop-set [] i e = refl
drop-set (x ∷ xs) zero e = refl
drop-set (x ∷ xs) (suc i) e = drop-set xs i e

take_whole : (xs : List LogRaw) (n : ℕ) → length xs ≤ n → take n xs ≡ xs
take_whole [] zero h = refl
take_whole [] (suc n) h = refl
take_whole (x ∷ xs) zero h = absurd (omega arith)
take_whole (x ∷ xs) (suc n) h = ap (λ ys. x ∷ ys) (take_whole xs n (omega arith))

drop_part :
    (xs : List LogRaw) (n : ℕ) → n < length xs → (x : LogRaw) × (drop n xs ≡ x ∷ drop (suc n) xs)
drop_part [] n h = absurd (omega arith)
drop_part (x ∷ xs) zero h = (x, refl)
drop_part (x ∷ xs) (suc n) h = drop_part xs n (omega arith)

length-take : (xs : List LogRaw) (n : ℕ) → n ≤ length xs → length (take n xs) ≡ n
length-take xs zero h = refl
length-take [] (suc n) h = absurd (omega arith)
length-take (x ∷ xs) (suc n) h = ap suc (length-take xs n (omega arith))

length-drop : (xs : List LogRaw) (n : ℕ) → n ≤ length xs → length (drop n xs) + n ≡ length xs
length-drop xs zero h = omega arith
length-drop [] (suc n) h = absurd (omega arith)
length-drop (x ∷ xs) (suc n) h = omega (arith, length-drop xs n (omega arith))

-- The last entries of a list.
abbrev pub keep_last : ℕ → List LogRaw → List LogRaw
keep_last n xs = drop (length xs - n) xs

drop-append : (xs ys : List LogRaw) (n : ℕ) → n ≤ length xs → drop n (xs ++ ys) ≡ drop n xs ++ ys
drop-append xs ys zero h = refl
drop-append [] ys (suc n) h = absurd (omega arith)
drop-append (x ∷ xs) ys (suc n) h = drop-append xs ys n (omega arith)

drop-nil : (n : ℕ) → drop {A = LogRaw} n [] ≡ []
drop-nil zero = refl
drop-nil (suc n) = refl

drop-drop : (xs : List LogRaw) (m n : ℕ) → drop m (drop n xs) ≡ drop (n + m) xs
drop-drop xs m zero = ap (λ k. drop k xs) (omega arith)
drop-drop [] m (suc n) = drop-nil m ∙ sym (drop-nil (suc n + m))
drop-drop (x ∷ xs) m (suc n) = rw (suc-add n m) (drop-drop xs m n)

keep_last-append :
    (n : ℕ) (xs ys : List LogRaw) → keep_last n (keep_last n xs ++ ys) ≡ keep_last n (xs ++ ys)
keep_last-append n xs ys = elim (dec_lt n (length xs)) [
  | no ge ↦ let none_out : length xs - n ≡ 0 = omega arith in rw none_out refl
  | yes lt ↦
      let k = length xs - n in
      let joined = drop-append xs ys k (omega arith) in
      let size : length (drop k xs ++ ys) - n ≡ length ys =
        omega (arith, length-append (drop k xs) ys, length-drop xs k (omega arith)) in
      let more : k + length ys ≡ length (xs ++ ys) - n = omega (arith, length-append xs ys) in
      rw size (
        ap (drop (length ys)) (sym joined)
        ∙ drop-drop (xs ++ ys) (length ys) k
        ∙ ap (λ m. drop m (xs ++ ys)) more)
]

-- An entry that Add stores: of a safe type that is not the one of an empty slot.
abbrev pub is_entry : LogRaw → Bool
is_entry e = is_safe_chmlog_type e.log_type && not (type_notassigned == e.log_type)

-- The log after an entry was stored.
abbrev stored : LogRaw → Log → Log
stored e log = record log {
  next_pos = if leb log.max_log_count (log.next_pos + 1) then 0 else suc log.next_pos;
  area = set log.area log.next_pos e;
}

add_log-stored :
    (e : LogRaw) (log : Log) → Sound log → is_entry e ≡ true → add_log e log ≡ (true, stored e log)
unfolding add_log
add_log-stored e log s h = ground (arith, h, s.enabled, s.inside, ==_iff log.max_log_count 0)

stored-Sound : (e : LogRaw) (log : Log) → Sound log → Sound (stored e log)
stored-Sound e log s = record {
  size = length-set log.area log.next_pos e ∙ s.size;
  inside = ground (arith, s.inside);
  enabled = s.enabled;
}

-- Whether the log has gone round changes at the last slot only.
is_round-last :
    (e : LogRaw) (log : Log)
    → Sound log
    → is_entry e ≡ true
    → log.next_pos + 1 ≡ log.max_log_count
    → is_round (stored e log) ≡ true
unfolding is_round
is_round-last e log s h last =
    let at : log.max_log_count - 1 ≡ log.next_pos = omega arith in
    ground
      (arith, at, get_elem?-set_self log.area log.next_pos e (omega (arith, s.size, s.inside)), h)

is_round-inside :
    (e : LogRaw) (log : Log)
    → log.next_pos + 1 < log.max_log_count
    → is_round (stored e log) ≡ is_round log
unfolding is_round
is_round-inside e log h =
    let other : log.next_pos ≢ log.max_log_count - 1 = λ k. omega arith in
    ground (arith, get_elem?-set_ne log.area log.next_pos (log.max_log_count - 1) e other)

module _ (e : LogRaw) (log : Log) (s : Sound log) where
  newest :
      take (suc log.next_pos) (set log.area log.next_pos e) ≡ take log.next_pos log.area ++ e ∷ []
  newest = take-set log.area log.next_pos e (omega (arith, s.size, s.inside))

  -- What is kept of the entries with the new one, before and after the log has gone round.
  kept_open :
      keep_last log.max_log_count (take log.next_pos log.area ++ e ∷ [])
      ≡ take log.next_pos log.area ++ e ∷ []
  kept_open =
      let none_out : length (take log.next_pos log.area ++ e ∷ []) - log.max_log_count ≡ 0 = omega (
        arith,
        length-append (take log.next_pos log.area) (e ∷ []),
        length-take log.area log.next_pos (omega (arith, s.size, s.inside)),
        s.inside,
      ) in
      rw none_out refl

  kept_round :
      keep_last log.max_log_count
        ((drop log.next_pos log.area ++ take log.next_pos log.area) ++ e ∷ [])
      ≡ drop (suc log.next_pos) log.area ++ (take log.next_pos log.area ++ e ∷ [])
  kept_round =
      let D = drop log.next_pos log.area in
      let N = take log.next_pos log.area in
      let fits : log.next_pos < length log.area = omega (arith, s.size, s.inside) in
      let (x, part) = drop_part log.area log.next_pos fits in
      let one_out : length ((D ++ N) ++ e ∷ []) - log.max_log_count ≡ 1 = omega (
        arith,
        length-append (D ++ N) (e ∷ []),
        length-append D N,
        length-take log.area log.next_pos (omega (arith, fits)),
        length-drop log.area log.next_pos (omega (arith, fits)),
        s.size,
      ) in
      rw (one_out, part) (append_assoc (drop (suc log.next_pos) log.area) N (e ∷ []))

  -- The whole array, when the new entry is its last one.
  whole_array :
      log.next_pos + 1 ≡ log.max_log_count
      → set log.area log.next_pos e ++ [] ≡ take log.next_pos log.area ++ e ∷ []
  whole_array last =
      append-nil (set log.area log.next_pos e)
      ∙ sym (
          take_whole (set log.area log.next_pos e) (suc log.next_pos)
            (omega (arith, length-set log.area log.next_pos e, s.size)))
      ∙ newest

  in_order-stored :
      is_entry e ≡ true
      → in_order (stored e log) ≡ keep_last log.max_log_count (in_order log ++ e ∷ [])
  in_order-stored h = elim (dec_lt (log.next_pos + 1) log.max_log_count) [
    | yes lt ↦
        let next : leb log.max_log_count (log.next_pos + 1) ≡ false = ground arith in
        elim (Bool-cases (is_round log)) [
          | inr r ↦ rw (is_round-inside e log lt, r, next) (newest ∙ sym kept_open)
          | inl r ↦
              rw (is_round-inside e log lt, r, next, drop-set log.area log.next_pos e, newest)
                (sym kept_round)
        ]
    | no ge ↦
        let next : leb log.max_log_count (log.next_pos + 1) ≡ true = ground arith in
        let last : log.next_pos + 1 ≡ log.max_log_count = omega (arith, s.inside) in
        let behind : drop (suc log.next_pos) log.area ≡ [] =
          drop_all log.area (suc log.next_pos) (omega (arith, s.size)) in
        elim (Bool-cases (is_round log)) [
          | inr r ↦ rw (is_round-last e log s h last, r, next) (whole_array last ∙ sym kept_open)
          | inl r ↦
              rw (is_round-last e log s h last, r, next)
                (whole_array last
                  ∙ ap (λ xs. xs ++ (take log.next_pos log.area ++ e ∷ [])) (sym behind)
                  ∙ sym kept_round)
        ]
  ]

-- Add, entry after entry.
abbrev pub add_all : List LogRaw → Log → Log
add_all [] log = log
add_all (e ∷ es) log = add_all es (add_log e log).1

abbrev pub entries : List LogRaw → Bool
entries = all is_entry

length-in_order : (log : Log) → Sound log → length (in_order log) ≤ log.max_log_count
length-in_order log s =
    let D = drop log.next_pos log.area in
    let N = take log.next_pos log.area in
    elim (Bool-cases (is_round log)) [
      | inl r ↦ rw r (
          omega (
            arith,
            length-append D N,
            length-take log.area log.next_pos (omega (arith, s.size, s.inside)),
            length-drop log.area log.next_pos (omega (arith, s.size, s.inside)),
            s.size,
          ))
      | inr r ↦ rw r (
          omega
            (arith, length-take log.area log.next_pos (omega (arith, s.size, s.inside)), s.inside))
    ]

keep_last_short : (n : ℕ) (xs : List LogRaw) → length xs ≤ n → keep_last n (xs ++ []) ≡ xs
keep_last_short n xs h =
    let none_out : length xs - n ≡ 0 = omega arith in rw (append-nil xs, none_out) refl

add_all-in_order :
    (es : List LogRaw) (log : Log)
    → Sound log
    → entries es ≡ true
    → Sound (add_all es log)
      × (in_order (add_all es log) ≡ keep_last log.max_log_count (in_order log ++ es))
add_all-in_order [] log s h =
    (s, sym (keep_last_short log.max_log_count (in_order log) (length-in_order log s)))
add_all-in_order (e ∷ es) log s h =
    let (one, others) = &&-eq-true (is_entry e) _ h in
    let (sound, order) = add_all-in_order es (stored e log) (stored-Sound e log s) others in
    let added : (add_log e log).1 ≡ stored e log = ap (λ out. out.1) (add_log-stored e log s one) in
    subst
      (λ l.
        Sound (add_all es l)
        × (in_order (add_all es l) ≡ keep_last log.max_log_count (in_order log ++ e ∷ es)))
      (sym added)
      (
        sound,
        order
            ∙ ap (λ xs. keep_last log.max_log_count (xs ++ es)) (in_order-stored e log s one)
            ∙ keep_last-append log.max_log_count (in_order log ++ e ∷ []) es
            ∙ ap (keep_last log.max_log_count) (append_assoc (in_order log) (e ∷ []) es),
      )

-- The log right after it was enabled.
abbrev started : ℕ → Log → Log
started now log = record log {
  enable = true;
  start_time = now;
  stop_time = now;
  next_pos = 0;
  area = set log.area (log.max_log_count - 1) blank;
}

enable_log-started :
    (now : ℕ) (log : Log)
    → log.enable ≡ false
    → 0 < log.max_log_count
    → enable_log now log ≡ (true, started now log)
unfolding enable_log
enable_log-started now log off pos = ground (arith, off, ==_iff log.max_log_count 0)

started_order :
    (now : ℕ) (log : Log)
    → length log.area ≡ log.max_log_count
    → 0 < log.max_log_count
    → in_order (started now log) ≡ []
unfolding is_round
started_order now log size pos =
    let last = get_elem?-set_self log.area (log.max_log_count - 1) blank (omega (arith, size)) in
    let not_round : is_round (started now log) ≡ false = ground (arith, last) in rw not_round refl

-- When a log with room is enabled and entries are added, it holds the newest of them in their
-- order, as many as it has room for, however often the array has gone round.
pub add_all-enable_log :
    (now : ℕ) (es : List LogRaw) (log : Log)
    → log.enable ≡ false
    → length log.area ≡ log.max_log_count
    → 0 < log.max_log_count
    → entries es ≡ true
    → Sound (add_all es (enable_log now log).1)
      × (in_order (add_all es (enable_log now log).1) ≡ keep_last log.max_log_count es)
add_all-enable_log now es log off size pos h =
    let sound : Sound (started now log) = record {
      size = length-set log.area (log.max_log_count - 1) blank ∙ size;
      inside = pos;
      enabled = refl;
    } in
    let (sound', order) = add_all-in_order es (started now log) sound h in
    let on : (enable_log now log).1 ≡ started now log =
      ap (λ out. out.1) (enable_log-started now log off pos) in
    subst (λ l. Sound (add_all es l) × (in_order (add_all es l) ≡ keep_last log.max_log_count es))
      (sym on)
      (
        sound',
        order ∙ ap (λ xs. keep_last log.max_log_count (xs ++ es)) (started_order now log size pos),
      )
