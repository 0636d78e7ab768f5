-- ===== src/Msg.antt =====
-- lib/chmstructure.h and lib/chmstructure.tcc, the pool of message queues (MQMSGHEAD,
-- MQMSGHEADLIST, CHMINFO; mqmsghead_lap, mqmsgheadlist_lap, chminfo_lap). A message head is named
-- by its id, which is its place in the array; a doubly linked list is the sequence of its ids from
-- the first to the last. What the pointer operations do to a node that is not in the list that its
-- flags name is not modelled; the invariant rules it out.
pub mod Flags
pub mod Occ
pub mod Invariant
pub mod Assign
pub mod Free
pub mod Activate
pub mod Run
mod Tests
use chmpx.Base.{
  ℕ, suc, ◌+◌, ◌-◌, ◌^◌, ◌%◌, Bool, true, false, not, ◌&&◌, ◌||◌, ◌==◌, ltb, leb, if◌then◌else◌,
  Option, none, some, List, [], ◌∷◌,
}
use chmpx.Msg.Flags.{
  Head, not_account_mq_flag, initialize_mq_flag, set_head_status, is_chmpxproc, is_clientproc,
  is_assigned, is_notassigned, is_activated,
}

-- CHM_INVALID_MSGID
abbrev pub invalid_msgid : ℕ
invalid_msgid = 2 ^ 64 - 1

-- CHMINFO: the members of the pool
pub record Pool : Type 0 where
  pub heads : ℕ → Head
  pub base_msgid : ℕ
  pub max_mqueue : ℕ
  pub chmpx_msgs : List ℕ
  pub chmpx_msg_count : ℕ
  pub activated_msgs : List ℕ
  pub activated_msg_count : ℕ
  pub assigned_msgs : List ℕ
  pub assigned_msg_count : ℕ
  pub free_msgs : List ℕ
  pub free_msg_count : ℕ
  pub last_msgid_chmpx : ℕ
  pub last_msgid_activated : ℕ
  pub last_msgid_assigned : ℕ

-- mqmsgheadarr_lap::Find: the range of the ids
unfoldable pub in_range : ℕ → Pool → Bool
in_range msgid p =
    not (ltb msgid p.base_msgid || leb ((p.base_msgid + p.max_mqueue) % 2 ^ 64) msgid)

abbrev pub put_head : ℕ → Head → Pool → Pool
put_head msgid h p = record p { heads = λ x. if x == msgid then h else p.heads x }

-- mqmsgheadlist_lap::Retrieve
unfoldable pub retrieve : ℕ → List ℕ → List ℕ
retrieve msgid [] = []
retrieve msgid (x ∷ xs) = if x == msgid then xs else x ∷ retrieve msgid xs

-- The three caches of FreeMsg
unfoldable pub forget : ℕ → Pool → Pool
forget msgid p = record p {
  last_msgid_chmpx = if msgid == p.last_msgid_chmpx then invalid_msgid else p.last_msgid_chmpx;
  last_msgid_activated =
      if msgid == p.last_msgid_activated then invalid_msgid else p.last_msgid_activated;
  last_msgid_assigned =
      if msgid == p.last_msgid_assigned then invalid_msgid else p.last_msgid_assigned;
}

-- The last part of FreeMsg: the head to the front of the free list
unfoldable pub add_free : ℕ → Pool → Pool
add_free msgid p = record (put_head msgid (not_account_mq_flag (p.heads msgid)) p) {
  free_msgs = msgid ∷ p.free_msgs;
  free_msg_count = suc p.free_msg_count;
}

-- chminfo_lap::FreeMsg after the caches
unfoldable pub release : ℕ → Pool → Bool × Pool
unfolding add_free
release msgid p =
    let h = p.heads msgid in
    if not (in_range msgid p)
    then (false, p)
    else (if is_notassigned h
        then (true, p)
        else (if is_chmpxproc h
            then (
              true,
              add_free msgid (record p {
                chmpx_msgs = retrieve msgid p.chmpx_msgs;
                chmpx_msg_count = p.chmpx_msg_count - 1;
              }),
            )
            else (if not (is_clientproc h)
                then (true, p)
                else (if is_assigned h && not (is_activated h)
                    then (
                      true,
                      add_free msgid (record p {
                        assigned_msgs = retrieve msgid p.assigned_msgs;
                        assigned_msg_count = p.assigned_msg_count - 1;
                      }),
                    )
                    else (if is_assigned h && is_activated h
                        then (
                          true,
                          add_free msgid (record p {
                            activated_msgs = retrieve msgid p.activated_msgs;
                            activated_msg_count = p.activated_msg_count - 1;
                          }),
                        )
                        else (false, p))))))

-- chminfo_lap::FreeMsg
unfoldable pub free_msg : ℕ → Pool → Bool × Pool
free_msg msgid p = if msgid == invalid_msgid then (false, p) else release msgid (forget msgid p)

-- chminfo_lap::IsMsgidActivated
unfoldable pub is_msgid_activated : ℕ → Pool → Bool
is_msgid_activated msgid p =
    not (msgid == invalid_msgid) && in_range msgid p && is_activated (p.heads msgid)

-- chminfo_lap::AssignMsg; the calling process's pid is an argument.
unfoldable pub assign_msg : ℕ → Bool → Bool → Pool → ℕ × Pool
assign_msg pid is_chmpx is_activated p = elim p.free_msgs [
  | [] ↦ (invalid_msgid, p)
  | msgid ∷ rest ↦
      (let h = initialize_mq_flag pid is_chmpx is_activated (not_account_mq_flag (p.heads msgid)) in
        let q = record (put_head msgid h p) {
          free_msgs = rest;
          free_msg_count = p.free_msg_count - 1;
        } in
        (
          msgid,
          if is_chmpx
              then record q {
                chmpx_msgs = msgid ∷ p.chmpx_msgs;
                chmpx_msg_count = suc p.chmpx_msg_count;
              }
              else (if not is_activated
                  then record q {
                    assigned_msgs = msgid ∷ p.assigned_msgs;
                    assigned_msg_count = suc p.assigned_msg_count;
                  }
                  else record q {
                    activated_msgs = msgid ∷ p.activated_msgs;
                    activated_msg_count = suc p.activated_msg_count;
                  }),
        ))
]

-- The list after a node has left it and the count is set: an empty count resets the list's head.
unfoldable pub left_over : ℕ → ℕ → List ℕ → List ℕ
left_over msgid count xs = if ltb 0 (count - 1) then retrieve msgid xs else []

-- The part of SetMqFlagStatus that moves a client's message from one list to the other
unfoldable pub to_assigned : ℕ → Pool → Pool
unfolding left_over
to_assigned msgid p = record p {
  activated_msgs = left_over msgid p.activated_msg_count p.activated_msgs;
  activated_msg_count = p.activated_msg_count - 1;
  assigned_msgs = msgid ∷ p.assigned_msgs;
  assigned_msg_count = suc p.assigned_msg_count;
}

unfoldable pub to_activated : ℕ → Pool → Pool
unfolding left_over
to_activated msgid p = record p {
  assigned_msgs = left_over msgid p.assigned_msg_count p.assigned_msgs;
  assigned_msg_count = p.assigned_msg_count - 1;
  activated_msgs = msgid ∷ p.activated_msgs;
  activated_msg_count = suc p.activated_msg_count;
}

-- The part of SetMqFlagStatus for a message that stays assigned
unfoldable pub keep_assigned : ℕ → ℕ → Bool → Pool → Bool × Pool
unfolding to_assigned to_activated
keep_assigned pid msgid is_activated' p =
    let h = p.heads msgid in
    let (done, h') = set_head_status pid true is_activated' h in
    let q = put_head msgid h' p in
    if is_chmpxproc h
    then (if not is_activated' then (false, p) else (if not done then (false, p) else (true, q)))
    else (if not (is_clientproc h)
        then (false, p)
        else (if not is_activated'
            then (if not (is_activated h)
                then (true, p)
                else (if not done then (false, p) else (true, to_assigned msgid q)))
            else (if is_activated h
                then (true, p)
                else (if not done then (false, p) else (true, to_activated msgid q)))))

-- chminfo_lap::SetMqFlagStatus
unfoldable pub set_mq_flag_status : ℕ → ℕ → Bool → Bool → Pool → Bool × Pool
set_mq_flag_status pid msgid is_assigned' is_activated' p =
    if msgid == invalid_msgid || (not is_assigned' && is_activated')
    then (false, p)
    else (if not is_assigned'
        then free_msg msgid p
        else (if not (in_range msgid p)
            then (false, p)
            else keep_assigned pid msgid is_activated' p))
