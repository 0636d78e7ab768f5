-- ===== src/Msg/Free.antt =====
-- FreeMsg puts a message back into the free list.
use chmpx.Base.{
  ℕ, suc, ◌-◌, ◌<◌, ◌≡◌, refl, ap, ◌∙◌, Bool, true, false, not, ◌&&◌, ◌==◌, ==_iff, inl, inr, ◌⊎◌,
  Bool-cases, length, arith, dec_lt,
}
use chmpx.Msg.{Pool, invalid_msgid, in_range, retrieve, add_free, forget, release, free_msg}
use chmpx.Msg.Flags.{
  Head, not_account_mq_flag, is_notassigned, is_assigned, is_activated, is_chmpxproc, is_clientproc,
}
use chmpx.Msg.Occ.{occ, occ-retrieve, length-retrieve}
use chmpx.Msg.Invariant.{
  Kind, chmpx_kind, activated_kind, assigned_kind, free_kind, list_of, count_of, flag_of, Inv,
  Moved, Moved-Inv, every,
}

-- What the tests of the flags say of each kind.
pub record Tests (k : Kind) (h : Head) : Type 0 where
  pub notassigned : is_notassigned h ≡ elim k [ free_kind ↦ true | _ ↦ false ]
  pub assigned : is_assigned h ≡ elim k [ free_kind ↦ false | _ ↦ true ]
  pub activated : is_activated h ≡ elim k [ chmpx_kind ↦ true | activated_kind ↦ true | _ ↦ false ]
  pub chmpxproc : is_chmpxproc h ≡ elim k [ chmpx_kind ↦ true | _ ↦ false ]
  pub clientproc :
      is_clientproc h ≡ elim k [ activated_kind ↦ true | assigned_kind ↦ true | _ ↦ false ]

pub tests : (k : Kind) (h : Head) → h.flag ≡ flag_of k → Tests k h
unfolding is_notassigned is_assigned is_activated is_chmpxproc is_clientproc
tests chmpx_kind h e = record {
  notassigned = rw e refl;
  assigned = rw e refl;
  activated = rw e refl;
  chmpxproc = rw e refl;
  clientproc = rw e refl;
}
tests activated_kind h e = record {
  notassigned = rw e refl;
  assigned = rw e refl;
  activated = rw e refl;
  chmpxproc = rw e refl;
  clientproc = rw e refl;
}
tests assigned_kind h e = record {
  notassigned = rw e refl;
  assigned = rw e refl;
  activated = rw e refl;
  chmpxproc = rw e refl;
  clientproc = rw e refl;
}
tests free_kind h e = record {
  notassigned = rw e refl;
  assigned = rw e refl;
  activated = rw e refl;
  chmpxproc = rw e refl;
  clientproc = rw e refl;
}

-- Every id of the array stands in one of the lists.
pub where_is :
    (msgid : ℕ) (p : Pool)
    → Inv p
    → in_range msgid p ≡ true
    → (k : Kind) × (0 < occ msgid (list_of k p))
where_is msgid p v h = elim (dec_lt 0 (occ msgid p.chmpx_msgs)) [
  | yes a ↦ (chmpx_kind, a)
  | no a ↦ elim (dec_lt 0 (occ msgid p.activated_msgs)) [
    | yes b ↦ (activated_kind, b)
    | no b ↦ elim (dec_lt 0 (occ msgid p.assigned_msgs)) [
      | yes c ↦ (assigned_kind, c)
      | no c ↦ (free_kind, ground (arith, v.shared msgid))
    ]
  ]
]

-- The pool after a message of a kind was freed.
abbrev pub freed : Kind → ℕ → Pool → Pool
freed chmpx_kind msgid p =
    add_free msgid (record p {
      chmpx_msgs = retrieve msgid p.chmpx_msgs;
      chmpx_msg_count = p.chmpx_msg_count - 1;
    })
freed activated_kind msgid p = add_free msgid (record p {
  activated_msgs = retrieve msgid p.activated_msgs;
  activated_msg_count = p.activated_msg_count - 1;
})
freed assigned_kind msgid p = add_free msgid (record p {
  assigned_msgs = retrieve msgid p.assigned_msgs;
  assigned_msg_count = p.assigned_msg_count - 1;
})
freed free_kind msgid p = p

release-freed :
    (k : Kind) (msgid : ℕ) (p : Pool)
    → in_range msgid p ≡ true
    → (p.heads msgid).flag ≡ flag_of k
    → release msgid p ≡ (true, freed k msgid p)
unfolding release
release-freed chmpx_kind msgid p r e =
    let t = tests chmpx_kind (p.heads msgid) e in ground (arith, r, t.notassigned, t.chmpxproc)
release-freed activated_kind msgid p r e =
    let t = tests activated_kind (p.heads msgid) e in
    ground (arith, r, t.notassigned, t.chmpxproc, t.clientproc, t.assigned, t.activated)
release-freed assigned_kind msgid p r e =
    let t = tests assigned_kind (p.heads msgid) e in
    ground (arith, r, t.notassigned, t.chmpxproc, t.clientproc, t.assigned, t.activated)
release-freed free_kind msgid p r e =
    let t = tests free_kind (p.heads msgid) e in ground (arith, r, t.notassigned)

module _ (msgid : ℕ) (p : Pool) (v : Inv p) where
  pub fewer :
      (k : Kind)
      → 0 < occ msgid (list_of k p)
      → count_of k p - 1 ≡ length (retrieve msgid (list_of k p))
  fewer k h = omega (arith, v.counts k, length-retrieve msgid (list_of k p) h)

  freed-Inv :
      (k : Kind)
      → 0 < occ msgid (list_of k p)
      → Inv (freed k msgid p) × (0 < occ msgid (freed k msgid p).free_msgs)
  unfolding add_free in_range not_account_mq_flag
  freed-Inv chmpx_kind h =
      let moved : Moved chmpx_kind free_kind msgid p (freed chmpx_kind msgid p) = record {
        occs =
            every _ (λ x. omega (arith, occ-retrieve x msgid p.chmpx_msgs h)) (λ x. omega arith)
              (λ x. omega arith) (λ x. omega arith);
        counts =
            every _ (fewer chmpx_kind h) (v.counts activated_kind) (v.counts assigned_kind)
              (ap suc (v.counts free_kind));
        head = ground (arith, ==_iff msgid msgid);
        others = λ x k. ground (arith, ==_iff x msgid, ==_iff msgid x);
        range = λ x. refl;
      } in
      (Moved-Inv v h moved, ground (arith, ==_iff msgid msgid))
  freed-Inv activated_kind h =
      let moved : Moved activated_kind free_kind msgid p (freed activated_kind msgid p) = record {
        occs =
            every _ (λ x. omega arith) (λ x. omega (arith, occ-retrieve x msgid p.activated_msgs h))
              (λ x. omega arith) (λ x. omega arith);
        counts =
            every _ (v.counts chmpx_kind) (fewer activated_kind h) (v.counts assigned_kind)
              (ap suc (v.counts free_kind));
        head = ground (arith, ==_iff msgid msgid);
        others = λ x k. ground (arith, ==_iff x msgid, ==_iff msgid x);
        range = λ x. refl;
      } in
      (Moved-Inv v h moved, ground (arith, ==_iff msgid msgid))
  freed-Inv assigned_kind h =
      let moved : Moved assigned_kind free_kind msgid p (freed assigned_kind msgid p) = record {
        occs =
            every _ (λ x. omega arith) (λ x. omega arith)
              (λ x. omega (arith, occ-retrieve x msgid p.assigned_msgs h)) (λ x. omega arith);
        counts =
            every _ (v.counts chmpx_kind) (v.counts activated_kind) (fewer assigned_kind h)
              (ap suc (v.counts free_kind));
        head = ground (arith, ==_iff msgid msgid);
        others = λ x k. ground (arith, ==_iff x msgid, ==_iff msgid x);
        range = λ x. refl;
      } in
      (Moved-Inv v h moved, ground (arith, ==_iff msgid msgid))
  freed-Inv free_kind h = (v, h)

forget-Inv : (msgid : ℕ) (p : Pool) → Inv p → Inv (forget msgid p)
unfolding forget in_range
forget-Inv msgid p v = record {
  flags =
      every _ (v.flags chmpx_kind) (v.flags activated_kind) (v.flags assigned_kind)
        (v.flags free_kind);
  counts =
      every _ (v.counts chmpx_kind) (v.counts activated_kind) (v.counts assigned_kind)
        (v.counts free_kind);
  shared = v.shared;
}

in_range-forget : (msgid x : ℕ) (p : Pool) → in_range x (forget msgid p) ≡ in_range x p
unfolding in_range forget
in_range-forget msgid x p = refl

-- A message of the array is free now, or the id was not one of the array.
abbrev pub Freed : ℕ → Pool → Bool × Pool → Type 0
Freed msgid p out =
    Inv out.1
    × (((out.0 ≡ true) × (0 < occ msgid out.1.free_msgs))
        ⊎ ((out.0 ≡ false) × ((not (msgid == invalid_msgid) && in_range msgid p) ≡ false)))

release-Freed :
    (msgid : ℕ) (p : Pool)
    → Inv p
    → in_range msgid p ≡ true
    → Inv (release msgid p).1
      × ((release msgid p).0 ≡ true)
      × (0 < occ msgid (release msgid p).1.free_msgs)
release-Freed msgid p v r =
    let (k, h) = where_is msgid p v r in
    let (inv, here) = freed-Inv msgid p v k h in
    rw (release-freed k msgid p r (v.flags k msgid h)) (inv, refl, here)

release-outside : (msgid : ℕ) (p : Pool) → in_range msgid p ≡ false → release msgid p ≡ (false, p)
unfolding release
release-outside msgid p r = ground (arith, r)

-- When the lists share out the ids, FreeMsg succeeds for every id of the array, which stands in the
-- free list afterwards, and fails for every other id; the lists share out the ids again.
pub free_msg_lem : (msgid : ℕ) (p : Pool) → Inv p → Freed msgid p (free_msg msgid p)
unfolding free_msg
free_msg_lem msgid p v = elim (Bool-cases (msgid == invalid_msgid)) [
  | inl e ↦ rw e (v, inr (refl, refl))
  | inr e ↦ elim (Bool-cases (in_range msgid p)) [
    | inl r ↦
        let (inv, done, here) =
          release-Freed msgid (forget msgid p) (forget-Inv msgid p v)
            (in_range-forget msgid msgid p ∙ r) in
        rw (e, r) (inv, inl (done, here))
    | inr r ↦
        rw (e, r, release-outside msgid (forget msgid p) (in_range-forget msgid msgid p ∙ r))
          (forget-Inv msgid p v, inr (refl, refl))
  ]
]
