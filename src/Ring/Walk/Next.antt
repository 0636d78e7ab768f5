-- ===== src/Ring/Walk/Next.antt =====
-- Where a walk over the list ends: at the first node that will do among the nodes after the current
-- one, then among those before it.
use chmpx.Base.{
  ℕ, ◌≡◌, refl, Bool, true, false, not, ◌&&◌, ◌==◌, ==_iff, if◌then◌else◌, Option, none, some, List,
  [], ◌∷◌, ◌++◌, arith, &&-eq-true,
}
use chmpx.Ring.{Ring}
use chmpx.Ring.Members.{distinct, not_in}
use chmpx.Ring.Walk.{
  found, back, ended, after, scan, is_next, to_next, is_usable, to_next_up_servicing,
}

abbrev pub find_first : (ℕ → Bool) → List ℕ → Option ℕ
find_first ok [] = none
find_first ok (a ∷ rest) = if ok a then some a else find_first ok rest

not_in-middle :
    (x cur : ℕ) (pre post : List ℕ) → not_in x (pre ++ cur ∷ post) ≡ true → (cur == x) ≡ false
not_in-middle x cur [] post h = ground arith
not_in-middle x cur (y ∷ pre) post h =
    not_in-middle x cur pre post (&&-eq-true (not (y == x)) _ h).1

not_in-split :
    (cur : ℕ) (pre post : List ℕ)
    → distinct (pre ++ cur ∷ post) ≡ true
    → (not_in cur pre ≡ true) × (not_in cur post ≡ true)
not_in-split cur [] post h = (refl, (&&-eq-true (not_in cur post) _ h).0)
not_in-split cur (x ∷ pre) post h =
    let (new, others) = &&-eq-true (not_in x (pre ++ cur ∷ post)) _ h in
    ground (arith, not_in-middle x cur pre post new, not_in-split cur pre post others, ==_iff cur x)

after-split :
    (cur : ℕ) (pre post : List ℕ) → not_in cur pre ≡ true → after cur (pre ++ cur ∷ post) ≡ post
unfolding after
after-split cur [] post h = ground (arith, ==_iff cur cur)
after-split cur (x ∷ pre) post h =
    ground (arith, ==_iff cur x, ==_iff x cur, after-split cur pre post)

scan-ended :
    (ok : ℕ → Bool) (cur : ℕ) (xs : List ℕ)
    → not_in cur xs ≡ true
    → scan ok cur xs ≡ elim (find_first ok xs) [ none ↦ ended | some a ↦ found a ]
unfolding scan
scan-ended ok cur [] h = refl
scan-ended ok cur (x ∷ xs) h = ground (arith, ==_iff cur x, ==_iff x cur, scan-ended ok cur xs)

scan-back :
    (ok : ℕ → Bool) (cur : ℕ) (pre post : List ℕ)
    → not_in cur pre ≡ true
    → scan ok cur (pre ++ cur ∷ post) ≡ elim (find_first ok pre) [ none ↦ back | some a ↦ found a ]
unfolding scan
scan-back ok cur [] post h = ground (arith, ==_iff cur cur)
scan-back ok cur (x ∷ pre) post h =
    ground (arith, ==_iff cur x, ==_iff x cur, scan-back ok cur pre post)

find_first-append :
    (ok : ℕ → Bool) (xs ys : List ℕ)
    → find_first ok (xs ++ ys)
      ≡ elim (find_first ok xs) [ none ↦ find_first ok ys | some a ↦ some a ]
find_first-append ok [] ys = refl
find_first-append ok (x ∷ xs) ys = ground (arith, find_first-append ok xs ys)

-- A walk: to the first node that will do, or to the default.
module _ (r : Ring) (pre post : List ℕ) (cur : ℕ) (eq : r.servers ≡ pre ++ cur ∷ post)
    (single : distinct r.servers ≡ true) where
  parts : (not_in cur pre ≡ true) × (not_in cur post ≡ true)
  parts = not_in-split cur pre post (rw eq at single)

  pub to_next-find_first :
      (is_base_hash is_up_servers is_allow_same_server without_suspend : Bool)
      → to_next true is_base_hash is_up_servers is_allow_same_server without_suspend cur r
        ≡ elim (find_first
            (is_next is_base_hash is_up_servers without_suspend r.store)
            (post ++ pre)) [ none ↦ (is_allow_same_server, cur) | some a ↦ (true, a) ]
  unfolding to_next
  to_next-find_first b u s w =
      let ok = is_next b u w r.store in
      ground (
        arith,
        eq,
        after-split cur pre post parts.0,
        scan-ended ok cur post parts.1,
        scan-back ok cur pre post parts.0,
        find_first-append ok post pre,
      )

  pub to_next_up_servicing-find_first :
      (is_cycle is_allow_same_server without_suspend : Bool)
      → to_next_up_servicing is_cycle is_allow_same_server without_suspend cur r
        ≡ elim (find_first
            (is_usable without_suspend r.store)
            (post ++ (if is_cycle then pre else []))) [
              | none ↦ (is_allow_same_server && is_usable without_suspend r.store cur, cur)
              | some a ↦ (true, a)
            ]
  unfolding to_next_up_servicing
  to_next_up_servicing-find_first c s w =
      let ok = is_usable w r.store in
      ground (
        arith,
        eq,
        after-split cur pre post parts.0,
        scan-ended ok cur post parts.1,
        scan-back ok cur pre post parts.0,
        find_first-append ok post (if c then pre else []),
      )
