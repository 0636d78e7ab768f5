-- ===== src/Msg/Flags.antt =====
-- The flag word of a message head (MQFLAG_*): bit 0 assigned, bit 1 activated, bits 2 and 3 the kind
-- of the process that has it.
use chmpx.Base.{ℕ, ◌==◌, Bool, true, false, not, ◌&&◌, if◌then◌else◌, bit_and, bit_or}
use chmpx.Status.{clear}

-- MQMSGHEAD less its id
pub record Head : Type 0 where
  pub flag : ℕ
  pub pid : ℕ

-- MQFLAG_MASK_*
abbrev pub mqflag_mask_assigned : ℕ
mqflag_mask_assigned = 0x1

abbrev pub mqflag_mask_activated : ℕ
mqflag_mask_activated = 0x2

abbrev pub mqflag_mask_kind : ℕ
mqflag_mask_kind = 0xC

abbrev pub mqflag_mask_status : ℕ
mqflag_mask_status = 0x3

abbrev pub mqflag_val_chmpxproc : ℕ
mqflag_val_chmpxproc = 0x4

abbrev pub mqflag_val_clientproc : ℕ
mqflag_val_clientproc = 0x8

-- SET_MQFLAG_*
unfoldable pub set_notassigned : ℕ → ℕ
unfolding clear
set_notassigned flag = clear flag mqflag_mask_status

unfoldable pub set_assigned : ℕ → ℕ
unfolding clear
set_assigned flag = bit_or (clear flag mqflag_mask_status) 0x1

unfoldable pub set_activated : ℕ → ℕ
unfolding clear
set_activated flag = bit_or (bit_or (clear flag mqflag_mask_status) 0x1) 0x2

unfoldable pub set_chmpxproc : ℕ → ℕ
unfolding clear
set_chmpxproc flag = bit_or (clear flag mqflag_mask_kind) mqflag_val_chmpxproc

unfoldable pub set_clientproc : ℕ → ℕ
unfolding clear
set_clientproc flag = bit_or (clear flag mqflag_mask_kind) mqflag_val_clientproc

-- IS_MQFLAG_*, as the methods of mqmsghead_lap
unfoldable pub is_notassigned : Head → Bool
is_notassigned h = 0 == bit_and h.flag mqflag_mask_assigned

unfoldable pub is_assigned : Head → Bool
is_assigned h = mqflag_mask_assigned == bit_and h.flag mqflag_mask_assigned

unfoldable pub is_activated : Head → Bool
is_activated h = mqflag_mask_activated == bit_and h.flag mqflag_mask_activated

unfoldable pub is_chmpxproc : Head → Bool
is_chmpxproc h = mqflag_val_chmpxproc == bit_and h.flag mqflag_mask_kind

unfoldable pub is_clientproc : Head → Bool
is_clientproc h = mqflag_val_clientproc == bit_and h.flag mqflag_mask_kind

-- mqmsghead_lap::NotAccountMqFlag; CHM_INVALID_PID is 0.
unfoldable pub not_account_mq_flag : Head → Head
not_account_mq_flag h = record { flag = 0; pid = 0 }

-- mqmsghead_lap::InitializeMqFlag
unfoldable pub initialize_mq_flag : ℕ → Bool → Bool → Head → Head
unfolding set_chmpxproc set_clientproc set_activated set_assigned
initialize_mq_flag pid is_chmpxproc' is_activated' h =
    let kind = if is_chmpxproc' then set_chmpxproc h.flag else set_clientproc h.flag in
    let activate = if is_chmpxproc' then true else is_activated' in
    record { flag = if activate then set_activated kind else set_assigned kind; pid = pid }

-- mqmsghead_lap::SetMqFlagStatus
unfoldable pub set_head_status : ℕ → Bool → Bool → Head → Bool × Head
unfolding set_notassigned set_assigned set_activated is_chmpxproc is_clientproc is_assigned
    is_notassigned is_activated
set_head_status pid is_assigned' is_activated' h =
    let activate =
      if is_chmpxproc h && is_assigned' && not is_activated' then true else is_activated' in
    if not (is_chmpxproc h) && not (is_clientproc h)
    then (false, h)
    else (if not is_assigned'
        then (
          true,
          record {
            flag =
                if is_notassigned h && not (is_activated h) then h.flag else set_notassigned h.flag;
            pid = 0;
          },
        )
        else (if not activate
            then (
              true,
              record {
                flag =
                    if is_assigned h && not (is_activated h) then h.flag else set_assigned h.flag;
                pid = pid;
              },
            )
            else (
              true,
              record {
                flag = if is_assigned h && is_activated h then h.flag else set_activated h.flag;
                pid = pid;
              },
            )))
