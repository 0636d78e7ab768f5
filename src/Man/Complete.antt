-- ===== src/Man/Complete.antt =====
-- Every replica is found: when all servers of the base ring may be used, a hash value goes to as
-- many servers as there are replicas, in the order of the ring.
use native.Mathlib.Nat.{mod-lt}
use chmpx.Base.{
  ℕ, zero, suc, ◌+◌, ◌%◌, ◌≤◌, ◌<◌, ◌≡◌, ◌≢◌, refl, sym, subst, ◌∙◌, true, false, Bool-cases, some,
  List, [], ◌∷◌, ◌++◌, length, length-append, get_elem?, get_elem?-append_lt, get_elem?-append_end,
  lt-length_of_get_elem?, arith, inl, inr, mod_ne, dec_lt, all, all-get_elem?, map, not, ◌==◌,
  ==_iff, &&-eq-true, ap,
}
use chmpx.Ring.{Ring}
use chmpx.Ring.Members.{distinct, not_in}
use chmpx.Man.{
  Man, Found, Filter, contains, push_new, passes, visit, collect, nothing_found, server_at,
}
use chmpx.Man.Contains.{contains-get_elem?, push_new-append}
use chmpx.Man.Route.{base_servers, Routed, server_numbered, server_at_lem}
use chmpx.Man.Replicas.{register, collected}

some-inj : (a b : ℕ) → some a ≡ some b → a ≡ b
some-inj a b e = cc

-- All servers of the base ring may be used, and their ids differ.
pub record AllUsable (f : Filter) (r : Ring) : Type 0 where
  pub usable : all (λ a. passes true f (r.store a)) (base_servers r) ≡ true
  pub differ : distinct (map (λ a. (r.store a).chmpxid) (base_servers r)) ≡ true

not_in-map :
    (g : ℕ → ℕ) (y : ℕ) (xs : List ℕ) (i a : ℕ)
    → not_in y (map g xs) ≡ true
    → get_elem? xs i ≡ some a
    → g a ≢ y
not_in-map g y [] i a h e = cc
not_in-map g y (x ∷ xs) zero a h e = ground (arith, some-inj x a e, ==_iff (g x) y)
not_in-map g y (x ∷ xs) (suc i) a h e = not_in-map g y xs i a (&&-eq-true (not (g x == y)) _ h).1 e

-- Places with the same value are the same place.
distinct-map :
    (g : ℕ → ℕ) (xs : List ℕ) (i j a b : ℕ)
    → distinct (map g xs) ≡ true
    → get_elem? xs i ≡ some a
    → get_elem? xs j ≡ some b
    → g a ≡ g b
    → i ≡ j
distinct-map g [] i j a b h ea eb e = cc
distinct-map g (x ∷ xs) zero zero a b h ea eb e = refl
distinct-map g (x ∷ xs) zero (suc j) a b h ea eb e = absurd (
    not_in-map g (g x) xs j b (&&-eq-true (not_in (g x) (map g xs)) _ h).0 eb
      (sym e ∙ ap g (sym (some-inj x a ea))))
distinct-map g (x ∷ xs) (suc i) zero a b h ea eb e = absurd (
    not_in-map g (g x) xs i a (&&-eq-true (not_in (g x) (map g xs)) _ h).0 ea
      (e ∙ ap g (sym (some-inj x b eb))))
distinct-map g (x ∷ xs) (suc i) (suc j) a b h ea eb e =
    ap suc (distinct-map g xs i j a b (&&-eq-true (not_in (g x) (map g xs)) _ h).1 ea eb e)

-- The list holds the ids of the `cnt` servers from the number `s` on, around the ring.
pub record Filled (r : Ring) (n s cnt : ℕ) (ids : List ℕ) : Type 0 where
  pub size : length ids ≡ cnt
  pub entry :
      (k : ℕ)
      → k < cnt
      → (a : ℕ) × (get_elem? (base_servers r) ((s + k) % n) ≡ some a)
        × (get_elem? ids k ≡ some ((r.store a).chmpxid))

-- The next server of the ring is not registered yet.
next_is_new :
    (f : Filter) (r : Ring) (n s cnt a : ℕ) (ids : List ℕ)
    → AllUsable f r
    → s < n
    → cnt < n
    → Filled r n s cnt ids
    → get_elem? (base_servers r) ((s + cnt) % n) ≡ some a
    → contains (r.store a).chmpxid ids ≡ false
next_is_new f r n s cnt a ids u small c filled e =
    elim (Bool-cases (contains (r.store a).chmpxid ids)) [
      | inr h ↦ h
      | inl h ↦
          let (k, at_k) = contains-get_elem? (r.store a).chmpxid ids h in
          let k_lt : k < cnt = omega (arith, lt-length_of_get_elem? ids k _ at_k, filled.size) in
          let (b, from, eq) = filled.entry k k_lt in
          absurd (
            mod_ne s k cnt n small k_lt c (
              distinct-map (λ x. (r.store x).chmpxid) (base_servers r) _ _ b a u.differ from e
                (some-inj _ _ (sym eq ∙ at_k))))
    ]

Filled-suc :
    (r : Ring) (n s cnt a : ℕ) (ids : List ℕ)
    → Filled r n s cnt ids
    → get_elem? (base_servers r) ((s + cnt) % n) ≡ some a
    → Filled r n s (suc cnt) (ids ++ (r.store a).chmpxid ∷ [])
Filled-suc r n s cnt a ids filled e = record {
  size = omega (arith, filled.size, length-append ids ((r.store a).chmpxid ∷ []));
  entry = λ k h. elim (dec_lt k cnt) [
    | yes lt ↦
        let (b, from, eq) = filled.entry k lt in
        (b, from, get_elem?-append_lt ids _ k (omega (arith, filled.size)) ∙ eq)
    | no ge ↦
        let is_last : k ≡ cnt = omega arith in
        (a, rw is_last e, get_elem?-append_end ids k _ (omega (arith, filled.size)))
  ];
}

visit-used :
    (f : Filter) (m : Man) (t a : ℕ) (found : Found)
    → Routed m
    → get_elem? (base_servers m.ring) t ≡ some a
    → passes true f (m.ring.store a) ≡ true
    → visit true f (server_at true t m.ring) m.ring found ≡ register (m.ring.store a) found
unfolding visit push_new
visit-used f m t a found v e h = rw (server_at_lem m t a v e, visit, h) refl

collect-Filled :
    (f : Filter) (m : Man) (s : ℕ)
    → Routed m
    → AllUsable f m.ring
    → s < m.bhash_count
    → (left cnt total : ℕ) (found : Found) → left + cnt ≡ total
    → total ≤ m.bhash_count
    → Filled m.ring m.bhash_count s cnt found.chmpxids
    → Filled m.ring m.bhash_count s total
        (collect true f s m.bhash_count left cnt m.ring found).chmpxids
unfolding collect
collect-Filled f m s v u small zero cnt total found e h filled =
    subst (λ x. Filled m.ring m.bhash_count s x found.chmpxids) (omega arith) filled
collect-Filled f m s v u small (suc left) cnt total found e h filled =
    let (a, e') =
      server_numbered m ((s + cnt) % m.bhash_count) v (mod-lt (s + cnt) (omega arith)) in
    collect-Filled f m s v u small left (suc cnt) total _ (omega arith) h (step a e')
  where
    step :
        (a : ℕ)
        → get_elem? (base_servers m.ring) ((s + cnt) % m.bhash_count) ≡ some a
        → Filled m.ring m.bhash_count s
            (suc cnt)
            (visit true f (server_at true ((s + cnt) % m.bhash_count) m.ring) m.ring found).chmpxids
    step a e' =
        let is_new =
          next_is_new f m.ring m.bhash_count s cnt a found.chmpxids u small (omega arith) filled
            e' in
        let extended = Filled-suc m.ring m.bhash_count s cnt a found.chmpxids filled e' in
        rw
          (
            visit-used f m _ a found v e' (all-get_elem? _ (base_servers m.ring) _ a u.usable e'),
            push_new-append (m.ring.store a).chmpxid found.chmpxids is_new,
          )
          extended

pub collected-Filled :
    (f : Filter) (hash : ℕ) (m : Man)
    → Routed m
    → AllUsable f m.ring
    → m.replica_count < m.bhash_count
    → Filled m.ring m.bhash_count
        (hash % m.bhash_count)
        (suc m.replica_count)
        (collected f hash m).chmpxids
collected-Filled f hash m v u h =
    collect-Filled f m (hash % m.bhash_count) v u (mod-lt hash (omega arith)) (suc m.replica_count)
      0 _ nothing_found (omega arith) (omega arith)
      (record { size = refl; entry = λ k h. absurd (omega arith) })
