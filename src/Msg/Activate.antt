-- ===== src/Msg/Activate.antt =====
-- SetMqFlagStatus moves a client's message between the activated and the assigned list.
use chmpx.Base.{
  ℕ, suc, ◌+◌, ◌<◌, ◌≡◌, refl, sym, ap, ◌∙◌, Bool, true, false, ◌||◌, ◌==◌, ==_iff, inl, inr, ◌⊎◌,
  Bool-cases, length, arith,
}
use chmpx.Msg.{
  Pool, invalid_msgid, in_range, put_head, to_assigned, to_activated, keep_assigned,
  set_mq_flag_status,
}
use chmpx.Msg.Flags.{
  Head, set_head_status, is_notassigned, is_assigned, is_activated, is_chmpxproc, is_clientproc,
  set_assigned, set_activated,
}
use chmpx.Msg.Occ.{occ, occ-retrieve, left_over-retrieve}
use chmpx.Msg.Invariant.{
  Kind, chmpx_kind, activated_kind, assigned_kind, free_kind, list_of, Inv, Moved, Moved-Inv, every,
}
use chmpx.Msg.Assign.{target}
use chmpx.Msg.Free.{tests, where_is, fewer, free_msg_lem}

-- The new flags of a head that is in a list.
renewed :
    (pid : ℕ) (h : Head) (is_activated' : Bool)
    → (h.flag ≡ 0x7
        → ((set_head_status pid true true h).0 ≡ true)
          × ((set_head_status pid true true h).1.flag ≡ 0x7))
      × (h.flag ≡ 0xB
          → ((set_head_status pid true false h).0 ≡ true)
            × ((set_head_status pid true false h).1.flag ≡ 0x9))
      × (h.flag ≡ 0x9
          → ((set_head_status pid true true h).0 ≡ true)
            × ((set_head_status pid true true h).1.flag ≡ 0xB))
unfolding set_head_status is_notassigned is_assigned is_activated is_chmpxproc is_clientproc
    set_assigned set_activated
renewed pid h act =
    (λ e. (rw e refl, rw e refl), λ e. (rw e refl, rw e refl), λ e. (rw e refl, rw e refl))

-- A head whose flags stay as they are.
same_flag-Inv :
    (msgid : ℕ) (h : Head) (p : Pool)
    → Inv p
    → h.flag ≡ (p.heads msgid).flag
    → Inv (put_head msgid h p)
unfolding in_range
same_flag-Inv msgid h p v e = record {
  flags =
      every _ (λ x g. kept x ∙ v.flags chmpx_kind x g) (λ x g. kept x ∙ v.flags activated_kind x g)
        (λ x g. kept x ∙ v.flags assigned_kind x g) (λ x g. kept x ∙ v.flags free_kind x g);
  counts =
      every _ (v.counts chmpx_kind) (v.counts activated_kind) (v.counts assigned_kind)
        (v.counts free_kind);
  shared = v.shared;
}
  where
    kept : (x : ℕ) → ((put_head msgid h p).heads x).flag ≡ (p.heads x).flag
    kept x = ground (arith, ==_iff x msgid)

module _ (msgid : ℕ) (h : Head) (p : Pool) (v : Inv p) where
  to_assigned-Moved :
      0 < occ msgid p.activated_msgs
      → h.flag ≡ 0x9
      → Moved activated_kind assigned_kind msgid p (to_assigned msgid (put_head msgid h p))
  unfolding to_assigned in_range
  to_assigned-Moved g f =
      let left =
        left_over-retrieve msgid p.activated_msg_count p.activated_msgs g
          (v.counts activated_kind) in
      record {
        occs =
            every _ (λ x. omega arith)
              (λ x. omega (arith, occ-retrieve x msgid p.activated_msgs g, ap (occ x) left))
              (λ x. omega arith) (λ x. omega arith);
        counts =
            every _ (v.counts chmpx_kind) (fewer msgid p v activated_kind g ∙ ap length (sym left))
              (ap suc (v.counts assigned_kind)) (v.counts free_kind);
        head = ground (arith, ==_iff msgid msgid);
        others = λ x k. ground (arith, ==_iff x msgid, ==_iff msgid x);
        range = λ x. refl;
      }

  to_activated-Moved :
      0 < occ msgid p.assigned_msgs
      → h.flag ≡ 0xB
      → Moved assigned_kind activated_kind msgid p (to_activated msgid (put_head msgid h p))
  unfolding to_activated in_range
  to_activated-Moved g f =
      let left =
        left_over-retrieve msgid p.assigned_msg_count p.assigned_msgs g (v.counts assigned_kind) in
      record {
        occs =
            every _ (λ x. omega arith) (λ x. omega arith)
              (λ x. omega (arith, occ-retrieve x msgid p.assigned_msgs g, ap (occ x) left))
              (λ x. omega arith);
        counts =
            every _ (v.counts chmpx_kind) (ap suc (v.counts activated_kind))
              (fewer msgid p v assigned_kind g ∙ ap length (sym left)) (v.counts free_kind);
        head = ground (arith, ==_iff msgid msgid);
        others = λ x k. ground (arith, ==_iff x msgid, ==_iff msgid x);
        range = λ x. refl;
      }

-- The message has the wanted status now, in the list for it or in the list of the chmpx process, or
-- nothing has changed.
abbrev pub Kept : Bool → ℕ → Pool → Bool × Pool → Type 0
Kept act msgid p out =
    Inv out.1
    × (((out.0 ≡ true)
          × (0 < occ msgid out.1.chmpx_msgs + occ msgid (list_of (target false act) out.1)))
        ⊎ (out ≡ (false, p)))

keep_assigned-Kept :
    (pid msgid : ℕ) (act : Bool) (p : Pool) (k : Kind)
    → Inv p
    → 0 < occ msgid (list_of k p)
    → Kept act msgid p (keep_assigned pid msgid act p)
unfolding keep_assigned to_assigned to_activated
keep_assigned-Kept pid msgid act p chmpx_kind v g =
    let e = v.flags chmpx_kind msgid g in
    let t = tests chmpx_kind (p.heads msgid) e in
    let (done, flag) = (renewed pid (p.heads msgid) act).0 e in
    elim (Bool-cases act) [
      | inl a ↦
          rw (a, t.chmpxproc, done)
            (same_flag-Inv msgid _ p v (flag ∙ sym e), inl (refl, omega arith))
      | inr a ↦ rw (a, t.chmpxproc) (v, inr refl)
    ]
keep_assigned-Kept pid msgid act p activated_kind v g =
    let e = v.flags activated_kind msgid g in
    let t = tests activated_kind (p.heads msgid) e in
    let (done, flag) = (renewed pid (p.heads msgid) act).1 e in
    elim (Bool-cases act) [
      | inl a ↦ rw (a, t.chmpxproc, t.clientproc, t.activated) (v, inl (refl, omega arith))
      | inr a ↦
          rw (a, t.chmpxproc, t.clientproc, t.activated, done)
            (
              Moved-Inv v g (to_assigned-Moved msgid _ p v g flag),
              inl (refl, ground (arith, ==_iff msgid msgid)),
            )
    ]
keep_assigned-Kept pid msgid act p assigned_kind v g =
    let e = v.flags assigned_kind msgid g in
    let t = tests assigned_kind (p.heads msgid) e in
    let (done, flag) = (renewed pid (p.heads msgid) act).2 e in
    elim (Bool-cases act) [
      | inl a ↦
          rw (a, t.chmpxproc, t.clientproc, t.activated, done)
            (
              Moved-Inv v g (to_activated-Moved msgid _ p v g flag),
              inl (refl, ground (arith, ==_iff msgid msgid)),
            )
      | inr a ↦ rw (a, t.chmpxproc, t.clientproc, t.activated) (v, inl (refl, omega arith))
    ]
keep_assigned-Kept pid msgid act p free_kind v g =
    let t = tests free_kind (p.heads msgid) (v.flags free_kind msgid g) in
    rw (t.chmpxproc, t.clientproc) (v, inr refl)

outside-Kept : (act : Bool) (msgid : ℕ) (p : Pool) → Inv p → Kept act msgid p (false, p)
outside-Kept act msgid p v = (v, inr refl)

-- When the lists share out the ids, a request for the activated or the assigned status succeeds with
-- the message in the list for that status, or in the list of the chmpx process, or it fails and
-- changes nothing; the lists share out the ids again.
pub set_mq_flag_status_lem :
    (pid msgid : ℕ) (act : Bool) (p : Pool)
    → Inv p
    → Kept act msgid p (set_mq_flag_status pid msgid true act p)
unfolding set_mq_flag_status
set_mq_flag_status_lem pid msgid act p v = elim (Bool-cases (msgid == invalid_msgid)) [
  | inl e ↦ rw e (outside-Kept act msgid p v)
  | inr e ↦ elim (Bool-cases (in_range msgid p)) [
    | inr r ↦ rw (e, r) (outside-Kept act msgid p v)
    | inl r ↦
        let (k, g) = where_is msgid p v r in rw (e, r) (keep_assigned-Kept pid msgid act p k v g)
  ]
]

or-true : (b : Bool) → (b || true) ≡ true
or-true b = ground arith

pub set_mq_flag_status-Inv :
    (pid msgid : ℕ) (is_assigned' act : Bool) (p : Pool)
    → Inv p
    → Inv (set_mq_flag_status pid msgid is_assigned' act p).1
unfolding set_mq_flag_status
set_mq_flag_status-Inv pid msgid true act p v = (set_mq_flag_status_lem pid msgid act p v).0
set_mq_flag_status-Inv pid msgid false true p v = rw (or-true (msgid == invalid_msgid)) v
set_mq_flag_status-Inv pid msgid false false p v = elim (Bool-cases (msgid == invalid_msgid)) [
  | inl e ↦ rw e v
  | inr e ↦ rw e (free_msg_lem msgid p v).0
]
