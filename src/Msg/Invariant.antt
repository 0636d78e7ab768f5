-- ===== src/Msg/Invariant.antt =====
-- The four lists of the pool share out the ids of the array: every id stands in one list, the one
-- that its flags name, and the counts are the lengths. A move from one list to another keeps this.
use chmpx.Base.{
  ℕ, ◌+◌, ◌≤◌, ◌<◌, ◌≡◌, refl, ◌∙◌, false, ◌==◌, ==_iff, if◌then◌else◌, Bool-cases, inl, inr, List,
  length, arith,
}
use chmpx.Msg.{Pool, in_range}
use chmpx.Msg.Occ.{occ}

pub data Kind : Type 0 where
  chmpx_kind activated_kind assigned_kind free_kind : Kind

abbrev pub list_of : Kind → Pool → List ℕ
list_of chmpx_kind p = p.chmpx_msgs
list_of activated_kind p = p.activated_msgs
list_of assigned_kind p = p.assigned_msgs
list_of free_kind p = p.free_msgs

abbrev pub count_of : Kind → Pool → ℕ
count_of chmpx_kind p = p.chmpx_msg_count
count_of activated_kind p = p.activated_msg_count
count_of assigned_kind p = p.assigned_msg_count
count_of free_kind p = p.free_msg_count

abbrev pub flag_of : Kind → ℕ
flag_of chmpx_kind = 0x7
flag_of activated_kind = 0xB
flag_of assigned_kind = 0x9
flag_of free_kind = 0

pub record Inv (p : Pool) : Type 0 where
  pub flags : (k : Kind) (x : ℕ) → 0 < occ x (list_of k p) → (p.heads x).flag ≡ flag_of k
  pub counts : (k : Kind) → count_of k p ≡ length (list_of k p)
  pub shared :
      (x : ℕ)
      → occ x p.chmpx_msgs + occ x p.activated_msgs + occ x p.assigned_msgs + occ x p.free_msgs
        ≡ (if in_range x p then 1 else 0)

-- What a kind gets of a number that goes to one kind.
abbrev pub share : Kind → Kind → ℕ → ℕ
share chmpx_kind chmpx_kind d = d
share chmpx_kind activated_kind d = 0
share chmpx_kind assigned_kind d = 0
share chmpx_kind free_kind d = 0
share activated_kind chmpx_kind d = 0
share activated_kind activated_kind d = d
share activated_kind assigned_kind d = 0
share activated_kind free_kind d = 0
share assigned_kind chmpx_kind d = 0
share assigned_kind activated_kind d = 0
share assigned_kind assigned_kind d = d
share assigned_kind free_kind d = 0
share free_kind chmpx_kind d = 0
share free_kind activated_kind d = 0
share free_kind assigned_kind d = 0
share free_kind free_kind d = d

abbrev pub hit : ℕ → ℕ → ℕ
hit msgid x = if msgid == x then 1 else 0

-- One id goes from one list to another, with the flags of the new list; the rest stays.
pub record Moved (src dst : Kind) (msgid : ℕ) (p p' : Pool) : Type 0 where
  pub occs :
      (k : Kind) (x : ℕ)
      → occ x (list_of k p') + share src k (hit msgid x)
        ≡ occ x (list_of k p) + share dst k (hit msgid x)
  pub counts : (k : Kind) → count_of k p' ≡ length (list_of k p')
  pub head : (p'.heads msgid).flag ≡ flag_of dst
  pub others : (x : ℕ) → (msgid == x) ≡ false → (p'.heads x).flag ≡ (p.heads x).flag
  pub range : (x : ℕ) → in_range x p' ≡ in_range x p

shares :
    (k : Kind) (d : ℕ)
    → share k chmpx_kind d
        + share k activated_kind d
        + share k assigned_kind d
        + share k free_kind d
      ≡ d
shares chmpx_kind d = omega arith
shares activated_kind d = omega arith
shares assigned_kind d = omega arith
shares free_kind d = omega arith

-- An id that stands in one list stands in no other one, and once.
alone :
    (p : Pool) (k j : Kind) (x : ℕ)
    → Inv p
    → 0 < occ x (list_of k p)
    → occ x (list_of j p) ≡ share k j 1
alone p k j x v h = at k j h
  where
    once :
        occ x p.chmpx_msgs + occ x p.activated_msgs + occ x p.assigned_msgs + occ x p.free_msgs ≤ 1
    once = ground (arith, v.shared x)

    at : (k j : Kind) → 0 < occ x (list_of k p) → occ x (list_of j p) ≡ share k j 1
    at chmpx_kind chmpx_kind g = omega (arith, once)
    at chmpx_kind activated_kind g = omega (arith, once)
    at chmpx_kind assigned_kind g = omega (arith, once)
    at chmpx_kind free_kind g = omega (arith, once)
    at activated_kind chmpx_kind g = omega (arith, once)
    at activated_kind activated_kind g = omega (arith, once)
    at activated_kind assigned_kind g = omega (arith, once)
    at activated_kind free_kind g = omega (arith, once)
    at assigned_kind chmpx_kind g = omega (arith, once)
    at assigned_kind activated_kind g = omega (arith, once)
    at assigned_kind assigned_kind g = omega (arith, once)
    at assigned_kind free_kind g = omega (arith, once)
    at free_kind chmpx_kind g = omega (arith, once)
    at free_kind activated_kind g = omega (arith, once)
    at free_kind assigned_kind g = omega (arith, once)
    at free_kind free_kind g = omega (arith, once)

share_one : (dst k : Kind) → 0 < share dst k 1 → flag_of dst ≡ flag_of k
share_one chmpx_kind chmpx_kind h = refl
share_one activated_kind activated_kind h = refl
share_one assigned_kind assigned_kind h = refl
share_one free_kind free_kind h = refl
share_one chmpx_kind activated_kind h = elim h [ ]
share_one chmpx_kind assigned_kind h = elim h [ ]
share_one chmpx_kind free_kind h = elim h [ ]
share_one activated_kind chmpx_kind h = elim h [ ]
share_one activated_kind assigned_kind h = elim h [ ]
share_one activated_kind free_kind h = elim h [ ]
share_one assigned_kind chmpx_kind h = elim h [ ]
share_one assigned_kind activated_kind h = elim h [ ]
share_one assigned_kind free_kind h = elim h [ ]
share_one free_kind chmpx_kind h = elim h [ ]
share_one free_kind activated_kind h = elim h [ ]
share_one free_kind assigned_kind h = elim h [ ]

share_zero : (k j : Kind) → share k j 0 ≡ 0
share_zero chmpx_kind chmpx_kind = refl
share_zero chmpx_kind activated_kind = refl
share_zero chmpx_kind assigned_kind = refl
share_zero chmpx_kind free_kind = refl
share_zero activated_kind chmpx_kind = refl
share_zero activated_kind activated_kind = refl
share_zero activated_kind assigned_kind = refl
share_zero activated_kind free_kind = refl
share_zero assigned_kind chmpx_kind = refl
share_zero assigned_kind activated_kind = refl
share_zero assigned_kind assigned_kind = refl
share_zero assigned_kind free_kind = refl
share_zero free_kind chmpx_kind = refl
share_zero free_kind activated_kind = refl
share_zero free_kind assigned_kind = refl
share_zero free_kind free_kind = refl

pub Moved-Inv :
    {src dst : Kind} {msgid : ℕ} {p p' : Pool}
    → Inv p
    → 0 < occ msgid (list_of src p)
    → Moved src dst msgid p p'
    → Inv p'
Moved-Inv {src} {dst} {msgid} {p} {p'} v h m = record {
  flags = flags;
  counts = m.counts;
  shared = λ x. rw (m.range x) (
      omega (
        arith,
        m.occs chmpx_kind x,
        m.occs activated_kind x,
        m.occs assigned_kind x,
        m.occs free_kind x,
        shares src (hit msgid x),
        shares dst (hit msgid x),
        v.shared x,
      ));
}
  where
    at_msgid : (k : Kind) → 0 < occ msgid (list_of k p') → (p'.heads msgid).flag ≡ flag_of k
    at_msgid k g =
        m.head
        ∙ share_one dst k
            (ground (arith, m.occs k msgid, alone p src k msgid v h, ==_iff msgid msgid))

    flags : (k : Kind) (x : ℕ) → 0 < occ x (list_of k p') → (p'.heads x).flag ≡ flag_of k
    flags k x g = elim (Bool-cases (msgid == x)) [
      | inl e ↦
          let same : msgid ≡ x = (==_iff msgid x).0 e in rw (← same) (at_msgid k (rw (← same) at g))
      | inr e ↦
          let kept : occ x (list_of k p') + share src k 0 ≡ occ x (list_of k p) + share dst k 0 =
            rw e at (m.occs k x) in
          m.others x e ∙ v.flags k x (omega (arith, kept, share_zero src k, share_zero dst k))
    ]

pub every {ℓ} :
    (P : Kind → Type ℓ)
    → P chmpx_kind
    → P activated_kind
    → P assigned_kind
    → P free_kind
    → (k : Kind) → P k
every P a b c d chmpx_kind = a
every P a b c d activated_kind = b
every P a b c d assigned_kind = c
every P a b c d free_kind = d
