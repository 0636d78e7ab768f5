-- ===== src/Merge/Receive/Around.antt =====
-- How far a packet still has to go around the RING.
use mathlib.Core.List.{append_assoc, head-eq_of_cons-eq, tail-eq_of_cons-eq}
use chmpx.Base.{
  ltb→lt, subst, length, length-append, &&-eq-true, ℕ, suc, ◌+◌, ◌<◌, ◌≡◌, refl, sym, ◌∙◌, ap, true,
  false, not, ◌&&◌, ◌||◌, ◌==◌, if◌then◌else◌, ltb, arith, Bool-cases, ◌⊎◌, inl, inr, List, [], ◌∷◌,
  ◌++◌,
}
use chmpx.Ring.{Chmpx, invalid_chmpxid}
use chmpx.Man.{Man}
use chmpx.Ring.Members.{distinct, not_in}
use chmpx.Ring.Walk.{after}
use chmpx.IdMap.{is_in}
use chmpx.Merge.Send.{before, others}
use chmpx.Merge.Receive.{is_safe_from, is_safe_dept_and_next_chmpxid}

-- The number of nodes before the first one with a name and an id, or of all nodes without it
abbrev pub steps : ℕ → (ℕ → Chmpx) → List ℕ → ℕ
steps chmpxid store [] = 0
steps chmpxid store (a ∷ rest) =
    let further = suc (steps chmpxid store rest) in
    if (store a).has_name && chmpxid == (store a).chmpxid then 0 else further

is_safe_from-steps :
    (dept next : ℕ) (store : ℕ → Chmpx) (nodes : List ℕ)
    → (dept == invalid_chmpxid) ≡ false
    → (next == invalid_chmpxid) ≡ false
    → (dept == next) ≡ false
    → is_safe_from dept next store nodes ≡ ltb (steps next store nodes) (steps dept store nodes)
unfolding is_safe_from
is_safe_from-steps dept next store [] d n e = refl
is_safe_from-steps dept next store (a ∷ rest) d n e =
    let ih = is_safe_from-steps dept next store rest d n e in
    elim (Bool-cases (store a).has_name) [
      | inl h ↦ rw h (ground arith)
      | inr h ↦ rw h (ground arith)
    ]

not_in-middle : (x b : ℕ) (xs ys : List ℕ) → not_in x (xs ++ b ∷ ys) ≡ true → (b == x) ≡ false
not_in-middle x b [] ys h = ground arith
not_in-middle x b (a ∷ xs) ys h = ground (arith, not_in-middle x b xs ys)

-- A list that has a node once, taken apart at that node
middle :
    (b : ℕ) (xs ys : List ℕ)
    → distinct (xs ++ b ∷ ys) ≡ true
    → (is_in b (xs ++ b ∷ ys) ≡ true)
      × (before b (xs ++ b ∷ ys) ≡ xs)
      × (after b (xs ++ b ∷ ys) ≡ ys)
unfolding before after
middle b [] ys d = ground arith
middle b (x ∷ xs) ys d =
    let k = &&-eq-true (not_in x (xs ++ b ∷ ys)) (distinct (xs ++ b ∷ ys)) d in
    let ih = middle b xs ys k.1 in
    let other = not_in-middle x b xs ys k.0 in
    let other' : (x == b) ≡ false = ground arith in
    rw (other, other', ih.0, ih.1, ih.2) (refl, refl, refl)

whole :
    (self : ℕ) (servers : List ℕ)
    → is_in self servers ≡ true
    → servers ≡ before self servers ++ self ∷ after self servers
unfolding before after
whole self [] h = cc
whole self (a ∷ rest) h = elim (Bool-cases (self == a)) [
  | inl e ↦ (let same : self ≡ a = ground arith in rw (e, same) refl)
  | inr e ↦
      (let same : is_in self rest ≡ true = ground arith in
        rw e (ap (λ t. a ∷ t) (whole self rest same)))
]

-- The place of an element of two lists, one after the other
place :
    (first second xs ys : List ℕ) (b : ℕ)
    → first ++ second ≡ xs ++ b ∷ ys
    → ((t : List ℕ) × (first ≡ xs ++ b ∷ t) × (ys ≡ t ++ second))
      ⊎ ((u : List ℕ) × (second ≡ u ++ b ∷ ys) × (xs ≡ first ++ u))
place [] second xs ys b e = inr (xs, e, refl)
place (a ∷ first) second [] ys b e =
    inl (first, rw (head-eq_of_cons-eq e) refl, sym (tail-eq_of_cons-eq e))
place (a ∷ first) second (x ∷ xs) ys b e =
    let ih = place first second xs ys b (tail-eq_of_cons-eq e) in
    let h : a ≡ x = head-eq_of_cons-eq e in
    elim ih [
      | inl (t, f, y) ↦ inl (t, rw (h, f) refl, y)
      | inr (u, f, y) ↦ inr (u, f, rw (h, y) refl)
    ]

others-middle :
    (b : ℕ) (servers p q : List ℕ)
    → distinct servers ≡ true
    → servers ≡ p ++ b ∷ q
    → others b servers ≡ q ++ p
unfolding others
others-middle b servers p q d e =
    let k = middle b p q (subst (λ l. distinct l ≡ true) e d) in rw (e, k.0, k.1, k.2) refl

-- What a server sees of the others when the node of another server stands in the same list
rotate :
    (self b : ℕ) (servers xs ys : List ℕ)
    → distinct servers ≡ true
    → is_in self servers ≡ true
    → others self servers ≡ xs ++ b ∷ ys
    → others b servers ≡ ys ++ self ∷ xs
unfolding others
rotate self b servers xs ys d h e =
    let parts = whole self servers h in
    let seen : after self servers ++ before self servers ≡ xs ++ b ∷ ys =
      sym (others-middle self servers (before self servers) (after self servers) d parts) ∙ e in
    elim (place (after self servers) (before self servers) xs ys b seen) [
      | inl (t, f, y) ↦
          others-middle b servers (before self servers ++ self ∷ xs) t d (
            parts
            ∙ ap (λ l. before self servers ++ self ∷ l) f
            ∙ sym (append_assoc (before self servers) (self ∷ xs) (b ∷ t)))
          ∙ sym (append_assoc t (before self servers) (self ∷ xs))
          ∙ ap (λ l. l ++ self ∷ xs) (sym y)
      | inr (u, f, x) ↦
          others-middle b servers u (ys ++ self ∷ after self servers) d (
            parts
            ∙ ap (λ l. l ++ self ∷ after self servers) f
            ∙ append_assoc u (b ∷ ys) (self ∷ after self servers))
          ∙ append_assoc ys (self ∷ after self servers) u
          ∙ ap (λ l. ys ++ self ∷ l) (sym x)
    ]

steps-past :
    (id : ℕ) (store : ℕ → Chmpx) (b : ℕ) (xs ys : List ℕ)
    → length xs < steps id store (xs ++ b ∷ ys)
    → steps id store (xs ++ b ∷ ys) ≡ length xs + suc (steps id store ys)
steps-past id store b [] ys h = ground arith
steps-past id store b (x ∷ xs) ys h = ground (arith, steps-past id store b xs ys)

steps-append :
    (id : ℕ) (store : ℕ → Chmpx) (ys zs : List ℕ)
    → steps id store ys < length ys
    → steps id store (ys ++ zs) ≡ steps id store ys
steps-append id store [] zs h = ground arith
steps-append id store (y ∷ ys) zs h = ground (arith, steps-append id store ys zs)

-- IsSafeDeptAndNextChmpxId lets a packet go on to the next server exactly if both ids are valid and
-- the next server is the departure itself or, counted from the own node around the server list,
-- comes before the departure.
pub is_safe_dept_and_next_chmpxid_lem :
    (dept next : ℕ) (m : Man)
    → is_safe_dept_and_next_chmpxid dept next m ≡ (
        not (dept == invalid_chmpxid)
        && not (next == invalid_chmpxid)
        && (dept == next
            || ltb
                (steps next m.ring.store (others m.self m.ring.servers))
                (steps dept m.ring.store (others m.self m.ring.servers))))
unfolding is_safe_dept_and_next_chmpxid
is_safe_dept_and_next_chmpxid_lem dept next m = elim (Bool-cases (dept == invalid_chmpxid)) [
  | inl d ↦ rw d refl
  | inr d ↦ elim (Bool-cases (next == invalid_chmpxid)) [
    | inl n ↦ rw (d, n) refl
    | inr n ↦ elim (Bool-cases (dept == next)) [
      | inl e ↦ rw (d, n, e) refl
      | inr e ↦
          rw (d, n, e)
            (is_safe_from-steps dept next m.ring.store (others m.self m.ring.servers) d n e)
    ]
  ]
]

-- The server list as a server sees it that passes a packet on: no node stands in it twice, the own
-- node stands in it, and the node `b`, the first of the others with the next server's id, stands
-- between the others `xs` and `ys`.
pub record Hop (m : Man) (b : ℕ) (xs ys : List ℕ) : Type 0 where
  pub single : distinct m.ring.servers ≡ true
  pub listed : is_in m.self m.ring.servers ≡ true
  pub seen : others m.self m.ring.servers ≡ xs ++ b ∷ ys
  pub first : steps (m.ring.store b).chmpxid m.ring.store (xs ++ b ∷ ys) ≡ length xs

-- A packet that IsSafeDeptAndNextChmpxId lets go on comes closer to its departure: if the departure
-- is among the other servers and is not the next server, then the next server sees it after fewer
-- nodes of the list than the own server does.
pub closer :
    (dept b : ℕ) (xs ys : List ℕ) (m : Man)
    → Hop m b xs ys
    → is_safe_dept_and_next_chmpxid dept (m.ring.store b).chmpxid m ≡ true
    → (dept == (m.ring.store b).chmpxid) ≡ false
    → steps dept m.ring.store (xs ++ b ∷ ys) < length (xs ++ b ∷ ys)
    → steps dept m.ring.store (others b m.ring.servers)
      < steps dept m.ring.store (others m.self m.ring.servers)
closer dept b xs ys m hop safe other known =
    let next = (m.ring.store b).chmpxid in
    let law = sym (is_safe_dept_and_next_chmpxid_lem dept next m) ∙ safe in
    let nearer : ltb (steps next m.ring.store (others m.self m.ring.servers))
          (steps dept m.ring.store (others m.self m.ring.servers))
        ≡ true =
      ground arith in
    let ahead = ltb→lt _ _ (
      subst (λ l. ltb (steps next m.ring.store l) (steps dept m.ring.store l) ≡ true) hop.seen
        nearer) in
    let ahead' : length xs < steps dept m.ring.store (xs ++ b ∷ ys) = omega (arith, hop.first) in
    let past = steps-past dept m.ring.store b xs ys ahead' in
    let short : steps dept m.ring.store ys < length ys = omega (arith, length-append xs (b ∷ ys)) in
    rw
      (
        hop.seen,
        rotate m.self b m.ring.servers xs ys hop.single hop.listed hop.seen,
        steps-append dept m.ring.store ys (m.self ∷ xs) short,
      )
      (omega arith)
