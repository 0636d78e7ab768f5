-- ===== src/Log.antt =====
-- lib/chmstructure.h and lib/chmstructure.tcc, the history log (CHMLOG, CHMLOGRAW; chmlog_lap,
-- chmlograw_lap): a circular array of entries. The array is a list; the clock and the two times of
-- an entry are arguments.
pub mod Read
pub mod Write
pub mod Last
mod Tests
use chmpx.Base.{
  ℕ, zero, suc, ◌+◌, ◌-◌, ◌*◌, Bool, true, false, not, ◌&&◌, ◌||◌, ◌==◌, leb, ltb, if◌then◌else◌,
  Option, none, some, List, [], ◌∷◌, ◌++◌, length, get_elem?, set, bit_and,
}

-- CHMLOG_TYPE_*
abbrev pub type_notassigned : ℕ
type_notassigned = 0

abbrev pub type_out_socket : ℕ
type_out_socket = 0xB

abbrev pub type_in_socket : ℕ
type_in_socket = 0xD

abbrev pub type_out_mq : ℕ
type_out_mq = 0x13

abbrev pub type_in_mq : ℕ
type_in_mq = 0x15

-- IS_CHMLOG_ASSIGNED, IS_SAFE_CHMLOG_TYPE and IS_SAFE_CHMLOG_MASK
unfoldable pub is_chmlog_assigned : ℕ → Bool
is_chmlog_assigned logtype = 1 == bit_and logtype 1

unfoldable pub is_safe_chmlog_type : ℕ → Bool
is_safe_chmlog_type logtype =
    type_notassigned == logtype
    || (type_out_socket == logtype
        || (type_in_socket == logtype || (type_out_mq == logtype || type_in_mq == logtype)))

unfoldable pub is_safe_chmlog_mask : ℕ → Bool
is_safe_chmlog_mask logtype =
    not (0 == bit_and logtype 1)
    || (not (0 == bit_and logtype 0x6) || not (0 == bit_and logtype 0x18))

-- CHMLOGRAW
pub record LogRaw : Type 0 where
  pub log_type : ℕ
  pub len : ℕ
  pub start_time : ℕ
  pub fin_time : ℕ

-- CHMLOG
pub record Log : Type 0 where
  pub enable : Bool
  pub start_time : ℕ
  pub stop_time : ℕ
  pub max_log_count : ℕ
  pub next_pos : ℕ
  pub area : List LogRaw

abbrev pub blank : LogRaw
blank = record { log_type = type_notassigned; len = 0; start_time = 0; fin_time = 0 }

-- chmlog_lap::Enable
unfoldable pub enable_log : ℕ → Log → Bool × Log
enable_log now log =
    if log.enable
    then (true, log)
    else (if log.max_log_count == 0 then (false, log) else (
      true,
      record log {
        enable = true;
        start_time = now;
        stop_time = now;
        next_pos = 0;
        area = set log.area (log.max_log_count - 1) blank;
      },
    ))

-- chmlog_lap::Disable
unfoldable pub disable_log : ℕ → Log → Log
disable_log now log = if log.enable then record log { enable = false; stop_time = now } else log

-- chmlog_lap::Add, with chmlograw_lap::Set: an entry of an unsafe type is not stored, though the
-- position goes on.
unfoldable pub add_log : LogRaw → Log → Bool × Log
add_log e log =
    let selfpos = log.next_pos in
    let moved = record log {
      next_pos = if leb log.max_log_count (selfpos + 1) then 0 else suc selfpos;
    } in
    if not log.enable
    then (true, log)
    else (if log.max_log_count == 0
        then (false, log)
        else (if not (is_safe_chmlog_type e.log_type)
            then (false, moved)
            else (true, record moved { area = set log.area selfpos e })))

-- The tests of Get on an entry
unfoldable pub is_wanted : ℕ → ℕ → LogRaw → Bool
is_wanted dirmask devmask e =
    is_chmlog_assigned e.log_type
    && (not (0 == bit_and e.log_type dirmask) && not (0 == bit_and e.log_type devmask))

-- What Get copies at a position: one entry or none
unfoldable pub read_at : ℕ → ℕ → ℕ → Log → List LogRaw
read_at dirmask devmask pos log = elim (get_elem? log.area pos) [
  | none ↦ []
  | some e ↦ if is_wanted dirmask devmask e then e ∷ [] else []
]

-- The loop of Get, while `left` entries may still be copied
unfoldable pub get_loop : ℕ → ℕ → ℕ → Bool → ℕ → ℕ → Log → List LogRaw
get_loop zero dirmask devmask is_circled cur_pos left log = []
get_loop (suc fuel) dirmask devmask is_circled cur_pos left log =
    let at_end = leb log.max_log_count cur_pos in
    let pos = if at_end then 0 else cur_pos in
    let copied = read_at dirmask devmask pos log in
    let rest =
      get_loop fuel dirmask devmask (is_circled || at_end) (suc pos) (left - length copied) log in
    if left == 0
    then []
    else (if is_circled && leb log.next_pos cur_pos
        then []
        else (if at_end && is_circled then [] else copied ++ rest))

-- The type in the last slot: not assigned as long as the log has not gone round
unfoldable pub is_round : Log → Bool
is_round log = elim (get_elem? log.area (log.max_log_count - 1)) [
  | none ↦ false
  | some e ↦ not (type_notassigned == e.log_type)
]

-- chmlog_lap::Get: `none` for wrong masks, otherwise the entries. Two rounds of the array are fuel
-- enough.
unfoldable pub get_log : ℕ → ℕ → ℕ → Log → Option (List LogRaw)
get_log arrsize dirmask devmask log =
    let size = if ltb log.max_log_count arrsize then log.max_log_count else arrsize in
    let start = if is_round log then log.next_pos else 0 in
    if not (is_safe_chmlog_mask dirmask) || not (is_safe_chmlog_mask devmask)
    then none
    else some (
        get_loop (suc (log.max_log_count + log.max_log_count)) dirmask devmask (not (is_round log))
          start size log)
