-- ===== src/Log/Tests.antt =====
-- A log of three slots: five entries, and three that bring it back to its first position.
use chmpx.Base.{ℕ, ◌≡◌, refl, false, some, List, [], ◌∷◌, ◌++◌, arith, take}
use chmpx.Log.{
  LogRaw, Log, blank, type_out_socket, type_in_mq, is_wanted, is_chmlog_assigned, read_at, get_loop,
  get_log, is_round, is_safe_chmlog_type, is_safe_chmlog_mask, enable_log, add_log,
}
use chmpx.Log.Read.{filter}
use chmpx.Log.Write.{Sound, in_order, capped, get_log-in_order, get_log_repeats}
use chmpx.Log.Last.{add_all, add_all-enable_log}

abbrev off : Log
off = record {
  enable = false;
  start_time = 0;
  stop_time = 0;
  max_log_count = 3;
  next_pos = 0;
  area = blank ∷ blank ∷ blank ∷ [];
}

abbrev out : ℕ → LogRaw
out n = record { log_type = type_out_socket; len = n; start_time = n; fin_time = n }

abbrev in_mq : ℕ → LogRaw
in_mq n = record { log_type = type_in_mq; len = n; start_time = n; fin_time = n }

abbrev three : List LogRaw
three = out 1 ∷ in_mq 2 ∷ out 3 ∷ []

abbrev five : List LogRaw
five = out 1 ∷ in_mq 2 ∷ out 3 ∷ out 4 ∷ in_mq 5 ∷ []

add_all-enable_log_example :
    Sound (add_all five (enable_log 9 off).1)
    × (in_order (add_all five (enable_log 9 off).1) ≡ out 3 ∷ out 4 ∷ in_mq 5 ∷ [])
unfolding is_safe_chmlog_type
add_all-enable_log_example = add_all-enable_log 9 five off refl refl (omega arith) refl

abbrev after_five : Log
after_five = add_all five (enable_log 9 off).1

five-Sound : Sound after_five
unfolding is_safe_chmlog_type
five-Sound = (add_all-enable_log 9 five off refl refl (omega arith) refl).0

abbrev after_three : Log
after_three = add_all three (enable_log 9 off).1

three-Sound : Sound after_three
unfolding is_safe_chmlog_type
three-Sound = (add_all-enable_log 9 three off refl refl (omega arith) refl).0

get_log-in_order_example :
    get_log 2 0x2 0x18 after_five
    ≡ some (take (capped 2 after_five) (filter (is_wanted 0x2 0x18) (in_order after_five)))
unfolding is_safe_chmlog_type is_safe_chmlog_mask is_round enable_log add_log
get_log-in_order_example = get_log-in_order 2 0x2 0x18 after_five five-Sound refl refl refl

get_log_repeats_example :
    get_log 3 0x2 0x18 after_three
    ≡ some (
        take
          (capped 3 after_three)
          (filter (is_wanted 0x2 0x18) (after_three.area ++ take 1 after_three.area)))
unfolding is_safe_chmlog_type is_safe_chmlog_mask is_round enable_log add_log
get_log_repeats_example = get_log_repeats 3 0x2 0x18 after_three three-Sound refl refl refl

-- The entries that go out by a socket or a queue: the first one comes twice.
three_run : get_log 3 0x2 0x18 after_three ≡ some (out 1 ∷ out 3 ∷ out 1 ∷ [])
unfolding is_safe_chmlog_type is_safe_chmlog_mask is_round enable_log add_log get_log get_loop
    read_at is_wanted is_chmlog_assigned
three_run = refl
