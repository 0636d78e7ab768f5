-- ===== src/Ring/Walk/Around.antt =====
-- The servers that are up form a ring: from each of them, ToNext leads to the next one in the order
-- of the list, and from the last one to the first.
use native.Mathlib.Nat.{mod-eq_of_lt, mod_self, suc-add}
use chmpx.Base.{
  ℕ, zero, suc, ◌+◌, ◌%◌, ◌<◌, ◌≡◌, refl, ap, ◌∙◌, Bool, Bool-cases, inl, inr, true, false, ltb,
  lt→ltb, none, some, List, [], ◌∷◌, ◌++◌, arith, length, length-append, get_elem?,
}
use chmpx.Status.{is_up}
use chmpx.Ring.{Chmpx, Ring}
use chmpx.Ring.Members.{members, distinct}
use chmpx.Ring.Walk.{is_next, to_next}
use chmpx.Ring.Walk.Next.{find_first, to_next-find_first}

-- The place of a member in the whole list.
record Place (p : ℕ → Bool) (store : ℕ → Chmpx) (xs : List ℕ) (i a : ℕ) : Type 0 where
  pre : List ℕ
  post : List ℕ
  eq : xs ≡ pre ++ a ∷ post
  before : length (members p store pre) ≡ i
  holds : p (store a).status ≡ true

Place-cons :
    {p : ℕ → Bool} {store : ℕ → Chmpx} {x : ℕ} {xs : List ℕ} {i a : ℕ}
    → p (store x).status ≡ false
    → Place p store xs i a
    → Place p store (x ∷ xs) i a
Place-cons {x = x} k q = record {
  pre = x ∷ q.pre;
  post = q.post;
  eq = ap (λ ys. x ∷ ys) q.eq;
  before = rw k q.before;
  holds = q.holds;
}

place :
    (p : ℕ → Bool) (store : ℕ → Chmpx) (xs : List ℕ) (i a : ℕ)
    → get_elem? (members p store xs) i ≡ some a
    → Place p store xs i a
place p store [] i a e = cc
place p store (x ∷ xs) zero a e = elim (Bool-cases (p (store x).status)) [
  | inr k ↦ Place-cons k (place p store xs zero a (rw k at e))
  | inl k ↦
      let h : some x ≡ some a = rw k at e in
      let same : x ≡ a = ground arith in
      record {
        pre = [];
        post = xs;
        eq = ap (λ y. y ∷ xs) same;
        before = refl;
        holds = rw (← same) k;
      }
]
place p store (x ∷ xs) (suc i) a e = elim (Bool-cases (p (store x).status)) [
  | inr k ↦ Place-cons k (place p store xs (suc i) a (rw k at e))
  | inl k ↦
      let q = place p store xs i a (rw k at e) in
      record {
        pre = x ∷ q.pre;
        post = q.post;
        eq = ap (λ ys. x ∷ ys) q.eq;
        before = rw k (ap suc q.before);
        holds = q.holds;
      }
]

members-append :
    (p : ℕ → Bool) (store : ℕ → Chmpx) (xs ys : List ℕ)
    → members p store (xs ++ ys) ≡ members p store xs ++ members p store ys
members-append p store [] ys = refl
members-append p store (x ∷ xs) ys = ground (arith, members-append p store xs ys)

find_first-members :
    (p : ℕ → Bool) (store : ℕ → Chmpx) (ok : ℕ → Bool) (xs : List ℕ)
    → ((a : ℕ) → ok a ≡ p (store a).status)
    → find_first ok xs ≡ get_elem? (members p store xs) 0
find_first-members p store ok [] h = refl
find_first-members p store ok (x ∷ xs) h = ground (arith, h x, find_first-members p store ok xs h)

get_elem?-append_add :
    (xs ys : List ℕ) (k : ℕ) → get_elem? (xs ++ ys) (length xs + k) ≡ get_elem? ys k
get_elem?-append_add [] ys k = ap (get_elem? ys) (omega arith)
get_elem?-append_add (x ∷ xs) ys k = rw (suc-add (length xs) k) (get_elem?-append_add xs ys k)

-- The same on the members alone.
abbrev first_of : List ℕ → ℕ → Bool × ℕ
first_of [] a = (false, a)
first_of (x ∷ xs) a = (true, x)

around :
    (xs ys : List ℕ) (a : ℕ)
    → let round = xs ++ a ∷ ys in
      (b : ℕ) × (get_elem? round (suc (length xs) % length round) ≡ some b)
      × (first_of (ys ++ xs) a ≡ (ltb 1 (length round), b))
around [] [] a = (a, refl, refl)
around (x ∷ xs) [] a =
    let size : length (xs ++ a ∷ []) ≡ suc (length xs) = omega (arith, length-append xs (a ∷ [])) in
    (
      x,
      rw (size, mod_self (suc (suc (length xs)))) refl,
      rw (size, lt→ltb 1 (suc (suc (length xs))) (omega arith)) refl,
    )
around xs (y ∷ ys) a =
    let size : length (xs ++ a ∷ y ∷ ys) ≡ length xs + suc (suc (length ys)) =
      omega (arith, length-append xs (a ∷ y ∷ ys)) in
    let next : suc (length xs) % length (xs ++ a ∷ y ∷ ys) ≡ length xs + 1 =
      mod-eq_of_lt (omega (arith, size)) ∙ omega arith in
    let many : 1 < length (xs ++ a ∷ y ∷ ys) = omega (arith, size) in
    (y, rw next (get_elem?-append_add xs (a ∷ y ∷ ys) 1), rw (lt→ltb _ _ many) refl)

is_next_up : (store : ℕ → Chmpx) (a : ℕ) → is_next false true false store a ≡ is_up (store a).status
unfolding is_next
is_next_up store a = ground arith

-- The servers that are up, in the order of the list.
abbrev pub up_servers : Ring → List ℕ
up_servers r = members is_up r.store r.servers

members-split :
    (store : ℕ → Chmpx) (pre post : List ℕ) (a : ℕ)
    → is_up (store a).status ≡ true
    → members is_up store (pre ++ a ∷ post)
      ≡ members is_up store pre ++ a ∷ members is_up store post
members-split store pre post a h =
    members-append is_up store pre (a ∷ post) ∙ ap (λ ys. members is_up store pre ++ ys) (rw h refl)

pick_first :
    (xs : List ℕ) (a : ℕ)
    → elim (get_elem? xs 0) [ none ↦ (false, a) | some x ↦ (true, x) ] ≡ first_of xs a
pick_first [] a = refl
pick_first (x ∷ xs) a = refl

-- From the server with number i among those that are up, the walk leads to the one with number
-- i + 1, or to the first after the last; it fails only if there is no other one.
pub to_next-around :
    (r : Ring) (i a : ℕ)
    → distinct r.servers ≡ true
    → get_elem? (up_servers r) i ≡ some a
    → (b : ℕ) × (get_elem? (up_servers r) (suc i % length (up_servers r)) ≡ some b)
      × (to_next true false true false false a r ≡ (ltb 1 (length (up_servers r)), b))
to_next-around r i a single e =
    let q = place is_up r.store r.servers i a e in at_place q.pre q.post q.eq q.before q.holds
  where
    at_place :
        (pre post : List ℕ)
        → r.servers ≡ pre ++ a ∷ post
        → length (members is_up r.store pre) ≡ i
        → is_up (r.store a).status ≡ true
        → (b : ℕ) × (get_elem? (up_servers r) (suc i % length (up_servers r)) ≡ some b)
          × (to_next true false true false false a r ≡ (ltb 1 (length (up_servers r)), b))
    at_place pre post eq before h =
        let all : up_servers r ≡ members is_up r.store pre ++ a ∷ members is_up r.store post =
          ap (members is_up r.store) eq ∙ members-split r.store pre post a h in
        let (b, at_b, to_b) = around (members is_up r.store pre) (members is_up r.store post) a in
        let walk = to_next-find_first r pre post a eq single false true false false in
        let first =
          find_first-members is_up r.store (is_next false true false r.store) (post ++ pre)
            (is_next_up r.store) in
        (
          b,
          rw (all, ← before) at_b,
          walk ∙ rw (first, members-append is_up r.store post pre, all) (pick_first _ a ∙ to_b),
        )
