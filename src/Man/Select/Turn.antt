-- ===== src/Man/Select/Turn.antt =====
-- GetRandomServerChmpxId: which servers come in turn.
use chmpx.Base.{
  ℕ, ◌≡◌, ◌≢◌, refl, ap, ◌∙◌, Bool, true, false, ◌&&◌, ◌||◌, ◌==◌, ==_iff, Bool-cases, Option-cases,
  inl, inr, ◌⊎◌, none, some, List, [], ◌∷◌, ◌++◌, arith, any,
}
use chmpx.Ring.{Ring, invalid_chmpxid}
use chmpx.Ring.Members.{distinct, not_in}
use chmpx.Ring.Walk.{to_next_up_servicing, is_usable}
use chmpx.Ring.Walk.Next.{find_first, to_next_up_servicing-find_first}
use chmpx.Man.{Man}
use chmpx.Man.Select.{find_server, turn_start, get_random_server_chmpxid}

split_at :
    (a : ℕ) (xs : List ℕ)
    → not_in a xs ≡ false
    → (pre : List ℕ) × (post : List ℕ) × (xs ≡ pre ++ a ∷ post)
split_at a [] h = cc
split_at a (x ∷ xs) h = elim (Bool-cases (x == a)) [
  | inl e ↦ ([], xs, ap (λ y. y ∷ xs) ((==_iff x a).0 e))
  | inr e ↦ let (pre, post, eq) = split_at a xs (rw e at h) in (x ∷ pre, post, ap (λ ys. x ∷ ys) eq)
]

any-append : (ok : ℕ → Bool) (xs ys : List ℕ) → any ok (xs ++ ys) ≡ (any ok xs || any ok ys)
any-append ok [] ys = refl
any-append ok (x ∷ xs) ys = ground (arith, any-append ok xs ys)

not_in-append : (a : ℕ) (xs ys : List ℕ) → not_in a (xs ++ ys) ≡ (not_in a xs && not_in a ys)
not_in-append a [] ys = refl
not_in-append a (x ∷ xs) ys = ground (arith, not_in-append a xs ys)

-- What is found first will do and is in the list; nothing is found if nothing will do.
find_first-any :
    (ok : ℕ → Bool) (xs : List ℕ)
    → ((find_first ok xs ≡ none) × (any ok xs ≡ false))
      ⊎ ((a : ℕ) × (find_first ok xs ≡ some a)
          × (ok a ≡ true)
          × (not_in a xs ≡ false)
          × (any ok xs ≡ true))
find_first-any ok [] = inl (refl, refl)
find_first-any ok (x ∷ xs) = elim (Bool-cases (ok x)) [
  | inl e ↦ inr (x, rw e refl, e, ground (arith, ==_iff x x), rw e refl)
  | inr e ↦ elim (find_first-any ok xs) [
    | inl h ↦ inl (rw e h.0, rw e h.1)
    | inr h ↦
        let (a, at_a, good, in_it, some_ok) = h in
        inr (a, rw e at_a, good, ground (arith, in_it), rw e some_ok)
  ]
]

-- A step from a node of the list ends at a node of the list; it succeeds exactly when a server is
-- usable, and then at one that is.
record Step (without_suspend : Bool) (r : Ring) (out : Bool × ℕ) : Type 0 where
  inside : not_in out.1 r.servers ≡ false
  done : out.0 ≡ any (is_usable without_suspend r.store) r.servers
  good : out.0 ≡ true → is_usable without_suspend r.store out.1 ≡ true

step :
    (without_suspend : Bool) (cur : ℕ) (r : Ring)
    → distinct r.servers ≡ true
    → not_in cur r.servers ≡ false
    → Step without_suspend r (to_next_up_servicing true true without_suspend cur r)
step w cur r single h =
    let (pre, post, eq) = split_at cur r.servers h in
    let walk = to_next_up_servicing-find_first r pre post cur eq single true true w in
    let ok = is_usable w r.store in
    let total : any ok r.servers ≡ (any ok pre || (ok cur || any ok post)) =
      rw eq (any-append ok pre (cur ∷ post)) in
    elim (find_first-any ok (post ++ pre)) [
      | inl n ↦
          rw (walk, n.0)
            (record {
              inside = h;
              done = ground (arith, total, n.1, any-append ok post pre);
              good = λ e. e;
            })
      | inr (a, at_a, good, in_it, some_ok) ↦
          rw (walk, at_a)
            (record {
              inside = rw eq (
                  ground
                    (arith, not_in-append a pre (cur ∷ post), not_in-append a post pre, in_it));
              done = ground (arith, total, some_ok, any-append ok post pre);
              good = λ e. good;
            })
    ]

-- The search of an id finds nodes of the list only.
pub record IsListed (m : Man) : Type 0 where
  pub single : distinct m.ring.servers ≡ true
  pub listed : (id a : ℕ) → find_server id m ≡ some a → not_in a m.ring.servers ≡ false

turn_start-inside :
    (w : Bool) (first : ℕ) (m : Man)
    → IsListed m
    → not_in first m.ring.servers ≡ false
    → not_in (turn_start w first m) m.ring.servers ≡ false
unfolding turn_start
turn_start-inside w first m v h = elim (Option-cases (find_server m.last_chmpxid m)) [
  | inl e ↦ ground (arith, e)
  | inr (a, e) ↦
      let s = step w a m.ring v.single (v.listed m.last_chmpxid a e) in ground (arith, e, s.inside)
]

-- A usable server of the list, or none if there is none.
abbrev pub Turn : Bool → Man → ℕ × Man → Type 0
Turn without_suspend m out =
    ((a : ℕ) × (not_in a m.ring.servers ≡ false)
      × (is_usable without_suspend m.ring.store a ≡ true)
      × (out ≡ ((m.ring.store a).chmpxid, record m { last_chmpxid = (m.ring.store a).chmpxid })))
    ⊎ ((any (is_usable without_suspend m.ring.store) m.ring.servers ≡ false)
        × (out ≡ (invalid_chmpxid, m)))

-- When the search finds nodes of the list only, no node stands in the list twice and a server
-- stands in the base ring, a call yields the id of a server of the list that is usable, and
-- remembers it; if no server is usable, it yields no id and changes nothing.
pub get_random_server_chmpxid_lem :
    (without_suspend : Bool) (m : Man)
    → IsListed m
    → m.bhash_count ≢ 0
    → Turn without_suspend m (get_random_server_chmpxid without_suspend m)
unfolding get_random_server_chmpxid
get_random_server_chmpxid_lem w m v some_base = go m.ring.servers refl
  where
    go : (xs : List ℕ) → m.ring.servers ≡ xs → Turn w m (get_random_server_chmpxid w m)
    go [] e = inr (rw e refl, ground (arith, e))
    go (x ∷ xs) e =
        let at_first : not_in x m.ring.servers ≡ false = rw e (ground (arith, ==_iff x x)) in
        let start = turn_start w x m in
        let s = step w start m.ring v.single (turn_start-inside w x m v at_first) in
        elim (Bool-cases (any (is_usable w m.ring.store) m.ring.servers)) [
          | inl h ↦ inl (
            (to_next_up_servicing true true w start m.ring).1,
            s.inside,
            s.good (s.done ∙ h),
            ground (arith, e, s.done, h, ==_iff m.bhash_count 0),
          )
          | inr h ↦ inr (h, ground (arith, e, s.done, h, ==_iff m.bhash_count 0))
        ]

-- The bug: when two servers are in the list and both are usable, a call that follows one that
-- yielded the first server yields the first server again, and likewise for the second, so that the
-- other server never has its turn.
pub get_random_server_chmpxid_repeats :
    (without_suspend : Bool) (m : Man) (a b : ℕ)
    → (m.ring.servers ≡ a ∷ b ∷ []) × (a ≢ b)
    → is_usable without_suspend m.ring.store a ≡ true
    → is_usable without_suspend m.ring.store b ≡ true
    → m.bhash_count ≢ 0
    → m.last_chmpxid ≢ invalid_chmpxid
    → (find_server m.last_chmpxid m ≡ some a) ⊎ (find_server m.last_chmpxid m ≡ some b)
    → (c : ℕ) × (find_server m.last_chmpxid m ≡ some c)
      × (get_random_server_chmpxid without_suspend m
          ≡ ((m.ring.store c).chmpxid, record m { last_chmpxid = (m.ring.store c).chmpxid }))
unfolding get_random_server_chmpxid turn_start
get_random_server_chmpxid_repeats w m a b (eq, ne) ua ub some_base some_last last =
    let single : distinct m.ring.servers ≡ true = rw eq (ground (arith, ==_iff b a)) in
    let to_b = to_next_up_servicing-find_first m.ring [] (b ∷ []) a eq single true true w in
    let to_a = to_next_up_servicing-find_first m.ring (a ∷ []) [] b eq single true true w in
    let from_a : to_next_up_servicing true true w a m.ring ≡ (true, b) = to_b ∙ rw ub refl in
    let from_b : to_next_up_servicing true true w b m.ring ≡ (true, a) = to_a ∙ rw ua refl in
    elim last [
      | inl e ↦ (
        a,
        e,
        ground (
          arith,
          eq,
          e,
          from_a,
          from_b,
          ==_iff m.bhash_count 0,
          ==_iff m.last_chmpxid invalid_chmpxid,
        ),
      )
      | inr e ↦ (
        b,
        e,
        ground (
          arith,
          eq,
          e,
          from_a,
          from_b,
          ==_iff m.bhash_count 0,
          ==_iff m.last_chmpxid invalid_chmpxid,
        ),
      )
    ]
