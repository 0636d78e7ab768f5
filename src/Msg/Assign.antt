-- ===== src/Msg/Assign.antt =====
-- AssignMsg takes the first free message.
use chmpx.Base.{
  ℕ, suc, ◌+◌, ◌-◌, ◌<◌, ◌≡◌, refl, ap, Bool, true, false, ◌==◌, ==_iff, if◌then◌else◌, inl, inr,
  ◌⊎◌, List, [], ◌∷◌, length, arith,
}
use chmpx.Msg.{Pool, invalid_msgid, in_range, put_head, assign_msg}
use chmpx.Msg.Flags.{Head, not_account_mq_flag, initialize_mq_flag}
use chmpx.Msg.Occ.{occ}
use chmpx.Msg.Invariant.{
  Kind, chmpx_kind, activated_kind, assigned_kind, free_kind, list_of, flag_of, Inv, Moved,
  Moved-Inv, every,
}

-- The list that AssignMsg is asked for
abbrev pub target : Bool → Bool → Kind
target true is_activated = chmpx_kind
target false true = activated_kind
target false false = assigned_kind

initialized :
    (pid : ℕ) (is_chmpx is_activated : Bool) (h : Head)
    → (initialize_mq_flag pid is_chmpx is_activated (not_account_mq_flag h)).flag
      ≡ flag_of (target is_chmpx is_activated)
unfolding initialize_mq_flag not_account_mq_flag
initialized pid true true h = refl
initialized pid true false h = refl
initialized pid false true h = refl
initialized pid false false h = refl

-- The pool after the first free message went to the list of a kind.
abbrev taken : Bool → Bool → Head → ℕ → List ℕ → Pool → Pool
taken true act h msgid rest p = record (put_head msgid h p) {
  free_msgs = rest;
  free_msg_count = p.free_msg_count - 1;
  chmpx_msgs = msgid ∷ p.chmpx_msgs;
  chmpx_msg_count = suc p.chmpx_msg_count;
}
taken false false h msgid rest p = record (put_head msgid h p) {
  free_msgs = rest;
  free_msg_count = p.free_msg_count - 1;
  assigned_msgs = msgid ∷ p.assigned_msgs;
  assigned_msg_count = suc p.assigned_msg_count;
}
taken false true h msgid rest p = record (put_head msgid h p) {
  free_msgs = rest;
  free_msg_count = p.free_msg_count - 1;
  activated_msgs = msgid ∷ p.activated_msgs;
  activated_msg_count = suc p.activated_msg_count;
}

assign_msg-taken :
    (pid : ℕ) (is_chmpx is_activated : Bool) (p : Pool) (msgid : ℕ) (rest : List ℕ)
    → p.free_msgs ≡ msgid ∷ rest
    → assign_msg pid is_chmpx is_activated p ≡ (
      msgid,
      taken is_chmpx is_activated
          (initialize_mq_flag pid is_chmpx is_activated (not_account_mq_flag (p.heads msgid)))
          msgid
          rest
          p,
    )
unfolding assign_msg
assign_msg-taken pid true act p msgid rest e = ground (arith, e)
assign_msg-taken pid false true p msgid rest e = ground (arith, e)
assign_msg-taken pid false false p msgid rest e = ground (arith, e)

assign_msg-none :
    (pid : ℕ) (is_chmpx is_activated : Bool) (p : Pool)
    → p.free_msgs ≡ []
    → assign_msg pid is_chmpx is_activated p ≡ (invalid_msgid, p)
unfolding assign_msg
assign_msg-none pid chm act p e = ground (arith, e)

module _ (h : Head) (msgid : ℕ) (rest : List ℕ) (p : Pool) (v : Inv p)
    (e : p.free_msgs ≡ msgid ∷ rest) where
  left : (x : ℕ) → occ x rest + (if msgid == x then 1 else 0) ≡ occ x p.free_msgs
  left x = rw e (omega arith)

  fewer : p.free_msg_count - 1 ≡ length rest
  fewer = ground (arith, v.counts free_kind, e)

  taken-Moved :
      (is_chmpx is_activated : Bool)
      → h.flag ≡ flag_of (target is_chmpx is_activated)
      → Moved free_kind
          (target is_chmpx is_activated)
          msgid
          p
          (taken is_chmpx is_activated h msgid rest p)
  unfolding in_range
  taken-Moved true act f = record {
    occs =
        every _ (λ x. omega arith) (λ x. omega arith) (λ x. omega arith)
          (λ x. omega (arith, left x));
    counts =
        every _ (ap suc (v.counts chmpx_kind)) (v.counts activated_kind) (v.counts assigned_kind)
          fewer;
    head = ground (arith, ==_iff msgid msgid);
    others = λ x k. ground (arith, ==_iff x msgid, ==_iff msgid x);
    range = λ x. refl;
  }
  taken-Moved false true f = record {
    occs =
        every _ (λ x. omega arith) (λ x. omega arith) (λ x. omega arith)
          (λ x. omega (arith, left x));
    counts =
        every _ (v.counts chmpx_kind) (ap suc (v.counts activated_kind)) (v.counts assigned_kind)
          fewer;
    head = ground (arith, ==_iff msgid msgid);
    others = λ x k. ground (arith, ==_iff x msgid, ==_iff msgid x);
    range = λ x. refl;
  }
  taken-Moved false false f = record {
    occs =
        every _ (λ x. omega arith) (λ x. omega arith) (λ x. omega arith)
          (λ x. omega (arith, left x));
    counts =
        every _ (v.counts chmpx_kind) (v.counts activated_kind) (ap suc (v.counts assigned_kind))
          fewer;
    head = ground (arith, ==_iff msgid msgid);
    others = λ x k. ground (arith, ==_iff x msgid, ==_iff msgid x);
    range = λ x. refl;
  }

-- A message that was free has gone to the front of the list of a kind, with the flags of that list.
pub record Assigned (k : Kind) (p : Pool) (out : ℕ × Pool) : Type 0 where
  pub was_free : 0 < occ out.0 p.free_msgs
  pub invariant : Inv out.1
  pub in_list : list_of k out.1 ≡ out.0 ∷ list_of k p
  pub flag : (out.1.heads out.0).flag ≡ flag_of k

taken-Assigned :
    (is_chmpx is_activated : Bool) (h : Head) (msgid : ℕ) (rest : List ℕ) (p : Pool)
    → Inv p
    → p.free_msgs ≡ msgid ∷ rest
    → h.flag ≡ flag_of (target is_chmpx is_activated)
    → Assigned (target is_chmpx is_activated) p (msgid, taken is_chmpx is_activated h msgid rest p)
taken-Assigned chm act h msgid rest p v e f =
    let m = taken-Moved h msgid rest p v e chm act f in
    let here : 0 < occ msgid p.free_msgs = rw e (ground (arith, ==_iff msgid msgid)) in
    record {
      was_free = here;
      invariant = Moved-Inv v here m;
      in_list = added chm act;
      flag = m.head;
    }
  where
    added :
        (chm act : Bool)
        → list_of (target chm act) (taken chm act h msgid rest p)
          ≡ msgid ∷ list_of (target chm act) p
    added true act = refl
    added false true = refl
    added false false = refl

-- When the lists share out the ids, AssignMsg yields a message that was free and now stands in the
-- list that the caller asked for, the lists share out the ids again, and it fails, changing nothing,
-- only when no message is free.
pub assign_msg_lem :
    (pid : ℕ) (is_chmpx is_activated : Bool) (p : Pool)
    → Inv p
    → Assigned (target is_chmpx is_activated) p (assign_msg pid is_chmpx is_activated p)
      ⊎ ((p.free_msgs ≡ []) × (assign_msg pid is_chmpx is_activated p ≡ (invalid_msgid, p)))
assign_msg_lem pid chm act p v = split p.free_msgs refl
  where
    split :
        (xs : List ℕ)
        → p.free_msgs ≡ xs
        → Assigned (target chm act) p (assign_msg pid chm act p)
          ⊎ ((p.free_msgs ≡ []) × (assign_msg pid chm act p ≡ (invalid_msgid, p)))
    split [] e = inr (e, assign_msg-none pid chm act p e)
    split (msgid ∷ rest) e = inl (
        rw (assign_msg-taken pid chm act p msgid rest e)
          (taken-Assigned chm act _ msgid rest p v e (initialized pid chm act (p.heads msgid))))
