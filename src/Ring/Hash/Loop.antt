-- ===== src/Ring/Hash/Loop.antt =====
-- The whole loop of UpdateHash: the servers of the base ring are numbered from 0 in the order of
-- the list, in their nodes and in the array.
use chmpx.Base.{
  ℕ, zero, suc, ◌+◌, ◌≤◌, ◌<◌, ◌≡◌, refl, ap, ◌∙◌, inl, inr, Bool, true, false, ◌==◌, ==_iff,
  if◌then◌else◌, List, [], ◌∷◌, set, some, arith, length, length-set, get_elem?, get_elem?-set_self,
  get_elem?-set_ne, Bool-cases, &&-eq-true,
}
use native.Mathlib.Nat.{add-zero, add-suc}
use chmpx.Status.{is_basehash}
use chmpx.Ring.Members.{
  Same, members, not_in, distinct, all_named, members-Same, all_named-Same, Same-trans, Same-refl,
}
use chmpx.Ring.{
  Ring, invalid_hashval, is_hashtg_base, assign_base, assign_pending, update_hash_from,
}
use chmpx.Ring.Hash.Step.{
  assign_base-Same, assign_pending-Same, assign_pending-base, assign_base-member, assign_base-other,
}

-- What the loop over the nodes `nodes` has done to the base ring, started with the number `nb`.
pub record Numbered (nodes : List ℕ) (nb : ℕ) (r r' : Ring) : Type 0 where
  pub same : Same r r'
  pub room : length r'.base_arr ≡ length r.base_arr
  pub kept : (j : ℕ) → j < nb → get_elem? r'.base_arr j ≡ get_elem? r.base_arr j
  pub outside : (x : ℕ) → not_in x nodes ≡ true → (r'.store x).base_hash ≡ (r.store x).base_hash
  pub entry :
      (i a : ℕ)
      → get_elem? (members is_basehash r.store nodes) i ≡ some a
      → (get_elem? r'.base_arr (nb + i) ≡ some (some a)) × ((r'.store a).base_hash ≡ nb + i)
  pub invalid :
      (x : ℕ)
      → not_in x nodes ≡ false
      → is_basehash (r.store x).status ≡ false
      → (r'.store x).base_hash ≡ invalid_hashval

-- A round at a server of the base ring, followed by the loop over the rest.
Numbered-member :
    (a : ℕ) (rest : List ℕ) (nb : ℕ) (r s r' : Ring)
    → is_basehash (r.store a).status ≡ true
    → not_in a rest ≡ true
    → nb < length r.base_arr
    → Same r s
    → s.base_arr ≡ set r.base_arr nb (some a)
    → ((x : ℕ) → (s.store x).base_hash ≡ (if x == a then nb else (r.store x).base_hash))
    → Numbered rest (suc nb) s r'
    → Numbered (a ∷ rest) nb r r'
Numbered-member a rest nb r s r' member fresh small same arr hash n = record {
  same = Same-trans same n.same;
  room = rw (n.room, arr) (length-set r.base_arr nb (some a));
  kept = λ j h.
      n.kept j (omega arith) ∙ rw arr (get_elem?-set_ne r.base_arr nb j (some a) (omega arith));
  outside = λ x h. ground (arith, n.outside x, hash x);
  entry = entry;
  invalid = λ x h o. ground (arith, n.invalid x, same.status x, n.outside x, hash x, ==_iff a x);
}
  where
    entry :
        (i b : ℕ)
        → get_elem? (members is_basehash r.store (a ∷ rest)) i ≡ some b
        → (get_elem? r'.base_arr (nb + i) ≡ some (some b)) × ((r'.store b).base_hash ≡ nb + i)
    entry zero b e = ground (
      arith,
      n.kept nb,
      n.outside a fresh,
      hash a,
      get_elem?-set_self r.base_arr nb (some a) small,
      add-zero nb,
    )
    entry (suc i) b e =
        ground (arith, n.entry i b, members-Same is_basehash same rest, add-suc nb i)

-- A round at any other server, followed by the loop over the rest.
Numbered-other :
    (a : ℕ) (rest : List ℕ) (nb : ℕ) (r s r' : Ring)
    → is_basehash (r.store a).status ≡ false
    → not_in a rest ≡ true
    → Same r s
    → s.base_arr ≡ r.base_arr
    → ((x : ℕ)
        → (s.store x).base_hash ≡ (if x == a then invalid_hashval else (r.store x).base_hash))
    → Numbered rest nb s r'
    → Numbered (a ∷ rest) nb r r'
Numbered-other a rest nb r s r' other fresh same arr hash n = record {
  same = Same-trans same n.same;
  room = rw (n.room, arr);
  kept = λ j h. rw (n.kept j h, arr);
  outside = λ x h. ground (arith, n.outside x, hash x);
  entry = λ i b e. ground (arith, n.entry i b, members-Same is_basehash same rest);
  invalid = λ x h o. ground (arith, n.invalid x, same.status x, n.outside x, hash x, ==_iff a x);
}

-- The ring after both halves of a round.
abbrev round : ℕ → ℕ → ℕ → ℕ → ℕ → Ring → Ring
round now type a nb np r = (assign_pending now type a np (assign_base now type a nb r).1).1

round-Same : (now type a nb np : ℕ) (r : Ring) → Same r (round now type a nb np r)
round-Same now type a nb np r =
    Same-trans (assign_base-Same now type a nb r) (assign_pending-Same now type a np _)

abbrev Done : List ℕ → ℕ → Ring → Bool × Ring → Type 0
Done nodes nb r out = (out.0 ≡ true) × Numbered nodes nb r out.1

module _ (now type a : ℕ) (rest : List ℕ) (nb np : ℕ) (r : Ring) where
  update_hash_from-cons :
      (r.store a).has_name ≡ true
      → update_hash_from now type (a ∷ rest) nb np r
        ≡ update_hash_from now type rest
            (assign_base now type a nb r).0
            (assign_pending now type a np (assign_base now type a nb r).1).0
            (round now type a nb np r)
  unfolding update_hash_from
  update_hash_from-cons named = rw named

  -- The array keeps its length, and the members of the rest their number.
  room_left :
      is_hashtg_base type ≡ true
      → (r.store a).has_name ≡ true
      → length r.base_arr < invalid_hashval
      → nb ≤ length r.base_arr
      → (length (round now type a nb np r).base_arr ≡ length r.base_arr)
        × (length (members is_basehash (round now type a nb np r).store rest)
            ≡ length (members is_basehash r.store rest))
  room_left base named small lt = (
    ap length (assign_pending-base now type a np (assign_base now type a nb r).1).0 ∙ step,
    ap length (members-Same is_basehash (round-Same now type a nb np r) rest),
  )
    where
      step : length (assign_base now type a nb r).1.base_arr ≡ length r.base_arr
      step = elim (Bool-cases (is_basehash (r.store a).status)) [
        | inl m ↦
            ap length (assign_base-member now type a nb r base named m (omega arith)).1
            ∙ length-set r.base_arr nb (some a)
        | inr o ↦ ap length (assign_base-other now type a nb r base named o).1
      ]

-- The loop over an empty list.
update_hash_from-nil :
    (now type nb np : ℕ) (r : Ring) → Done [] nb r (update_hash_from now type [] nb np r)
unfolding update_hash_from
update_hash_from-nil now type nb np r = (
  refl,
  record {
    same = Same-refl r;
    room = refl;
    kept = λ j h. refl;
    outside = λ x h. refl;
    entry = λ i a e. cc;
    invalid = λ x h. cc;
  },
)

module _ (now type : ℕ) (base : is_hashtg_base type ≡ true) where
  -- The loop visits every node, numbers the servers of the base ring and returns true.
  pub update_hash_from-Numbered :
      (nodes : List ℕ) (nb np : ℕ) (r : Ring)
      → all_named r.store nodes ≡ true
      → distinct nodes ≡ true
      → nb + length (members is_basehash r.store nodes) ≤ length r.base_arr
      → length r.base_arr < invalid_hashval
      → Done nodes nb r (update_hash_from now type nodes nb np r)
  update_hash_from-Numbered [] nb np r named single room small =
      update_hash_from-nil now type nb np r
  update_hash_from-Numbered (a ∷ rest) nb np r named single room small =
      let has_name = (&&-eq-true _ (all_named r.store rest) named).0 in
      let fresh = (&&-eq-true (not_in a rest) (distinct rest) single).0 in
      let same = round-Same now type a nb np r in
      let (arr, hash) = assign_pending-base now type a np (assign_base now type a nb r).1 in
      let rest_of =
        λ (k : ℕ)
            (p : k + length (members is_basehash (round now type a nb np r).store rest)
              ≤ length (round now type a nb np r).base_arr)
            (q : length (round now type a nb np r).base_arr < invalid_hashval).
          update_hash_from-Numbered rest k
            (assign_pending now type a np (assign_base now type a nb r).1).0
            (round now type a nb np r)
            (all_named-Same same rest ∙ (&&-eq-true _ (all_named r.store rest) named).1)
            (&&-eq-true (not_in a rest) (distinct rest) single).1 p q in
      rw (update_hash_from-cons now type a rest nb np r has_name)
        (elim (Bool-cases (is_basehash (r.store a).status)) [
          | inl m ↦
              let lt : nb < length r.base_arr = omega (arith, rw m at room) in
              let (next, arr1, hash1) =
                assign_base-member now type a nb r base has_name m (omega arith) in
              let left = room_left now type a rest nb np r base has_name small (omega arith) in
              rw next (
                let ih =
                  rest_of (suc nb) (omega (arith, left, rw m at room)) (omega (arith, left)) in
                (
                  ih.0,
                  Numbered-member a rest nb r _ _ m fresh lt same (arr ∙ arr1)
                      (λ x. hash x ∙ hash1 x) ih.1,
                ))
          | inr o ↦
              let (next, arr1, hash1) = assign_base-other now type a nb r base has_name o in
              let left =
                room_left now type a rest nb np r base has_name small (omega (arith, room)) in
              rw next (
                let ih = rest_of nb (omega (arith, left, rw o at room)) (omega (arith, left)) in
                (
                  ih.0,
                  Numbered-other a rest nb r _ _ o fresh same (arr ∙ arr1) (λ x. hash x ∙ hash1 x)
                      ih.1,
                ))
        ])
