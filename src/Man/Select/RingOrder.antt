-- ===== src/Man/Select/RingOrder.antt =====
-- A message that is handed on around the RING: GetNextRingChmpxId, hop by hop.
use native.Mathlib.Nat.{mod-eq_of_lt, suc-mod, add-suc, add-zero}
use chmpx.Base.{
  ℕ, zero, suc, ◌+◌, ◌-◌, ◌%◌, ◌<◌, ◌≡◌, refl, sym, ap, ◌∙◌, Bool, true, false, ◌==◌, ==_iff,
  lt→ltb, none, some, [], ◌∷◌, arith, length, get_elem?, lt-length_of_get_elem?, all, all-get_elem?,
  dec_lt, mod_wrap,
}
use chmpx.Ring.{invalid_chmpxid}
use chmpx.Ring.Members.{distinct}
use chmpx.Ring.Walk.Around.{up_servers, to_next-around}
use chmpx.IdMap.{is_server_mode, search_chmpxid}
use chmpx.Man.{Man}
use chmpx.Man.Select.{find_server, next_id, get_next_ring_chmpxid}

-- The search of a node's id finds the node.
abbrev pub finds : Man → ℕ → Bool
finds m a = elim (find_server (m.ring.store a).chmpxid m) [ none ↦ false | some b ↦ b == a ]

-- The own node is a server, no node stands in the list twice, more than one server is up, and the
-- search finds every server that is up.
pub record IsRing (m : Man) : Type 0 where
  pub own : is_server_mode (m.ring.store m.self) ≡ true
  pub single : distinct m.ring.servers ≡ true
  pub many : 1 < length (up_servers m.ring)
  pub known : all (finds m) (up_servers m.ring) ≡ true

-- The id is looked up, not taken as the one of the own node.
pub find_server-invalid : (m : Man) → find_server invalid_chmpxid m ≡ none
unfolding find_server search_chmpxid
find_server-invalid m =
    elim m.ring.servers
      as (λ s.
        (elim s [
          | [] ↦ none
          | first ∷ rest ↦
              search_chmpxid m.ring.store (is_server_mode (m.ring.store first)) invalid_chmpxid
                m.chmpxid_map
        ])
        ≡ none) [ [] ↦ refl | x ∷ xs ↦ refl ]

next_from :
    (m : Man) (a : ℕ)
    → is_server_mode (m.ring.store m.self) ≡ true
    → finds m a ≡ true
    → get_next_ring_chmpxid (m.ring.store a).chmpxid m ≡ next_id a m
unfolding get_next_ring_chmpxid
next_from m a own known =
    ground (arith, find_server-invalid m, ==_iff (m.ring.store a).chmpxid invalid_chmpxid)

-- One hop leads from the server with number i among those that are up to the next one.
next_hop :
    (m : Man) (i a : ℕ)
    → IsRing m
    → get_elem? (up_servers m.ring) i ≡ some a
    → (b : ℕ) × (get_elem? (up_servers m.ring) (suc i % length (up_servers m.ring)) ≡ some b)
      × (get_next_ring_chmpxid (m.ring.store a).chmpxid m ≡ (m.ring.store b).chmpxid)
next_hop m i a v e =
    let (b, at_b, walk) = to_next-around m.ring i a v.single e in
    let known = all-get_elem? (finds m) (up_servers m.ring) i a v.known e in
    (
      b,
      at_b,
      next_from m a v.own known ∙ rw (walk, lt→ltb 1 (length (up_servers m.ring)) v.many) refl,
    )

-- The id after some hops.
abbrev pub hops : ℕ → ℕ → Man → ℕ
hops zero chmpxid m = chmpxid
hops (suc k) chmpxid m = get_next_ring_chmpxid (hops k chmpxid m) m

pub hops-up_servers :
    (m : Man) (i a : ℕ)
    → IsRing m
    → get_elem? (up_servers m.ring) i ≡ some a
    → (k : ℕ)
    → (b : ℕ) × (get_elem? (up_servers m.ring) ((i + k) % length (up_servers m.ring)) ≡ some b)
      × (hops k (m.ring.store a).chmpxid m ≡ (m.ring.store b).chmpxid)
hops-up_servers m i a v e zero =
    let small = lt-length_of_get_elem? (up_servers m.ring) i a e in
    (a, rw (add-zero i, mod-eq_of_lt small) e, refl)
hops-up_servers m i a v e (suc k) =
    let n = length (up_servers m.ring) in
    let (b, at_b, at_k) = hops-up_servers m i a v e k in
    let (c, at_c, step) = next_hop m ((i + k) % n) b v at_b in
    (c, rw (add-suc i k, suc-mod (i + k) n) at_c, rw at_k step)

some-inj : (a b : ℕ) → some a ≡ some b → a ≡ b
some-inj a b e = cc

-- The number of hops from one place to another.
distance : (n i j : ℕ) → i < n → j < n → (k : ℕ) × (k < n) × ((i + k) % n ≡ j)
distance n i j h g = elim (dec_lt j i) [
  | yes lt ↦ (
    j + n - i,
    omega arith,
    mod_wrap (i + (j + n - i)) n (omega arith) (omega arith) ∙ omega arith,
  )
  | no ge ↦
      let sum : i + (j - i) ≡ j = omega arith in
      (j - i, omega arith, ap (λ x. x % n) sum ∙ mod-eq_of_lt g)
]

hops_to :
    (m : Man) (i a j b k : ℕ)
    → IsRing m
    → get_elem? (up_servers m.ring) i ≡ some a
    → get_elem? (up_servers m.ring) j ≡ some b
    → (i + k) % length (up_servers m.ring) ≡ j
    → hops k (m.ring.store a).chmpxid m ≡ (m.ring.store b).chmpxid
hops_to m i a j b k v e f place =
    let (c, at_c, at_k) = hops-up_servers m i a v e k in
    let same : b ≡ c =
      some-inj b c (sym f ∙ ap (get_elem? (up_servers m.ring)) (sym place) ∙ at_c) in
    rw same at_k

-- On a ring, a message that is handed on from any server that is up reaches every other server
-- that is up in fewer hops than there are such servers, and as many hops lead back to the start.
pub hops-reach :
    (m : Man) (i a j b : ℕ)
    → IsRing m
    → get_elem? (up_servers m.ring) i ≡ some a
    → get_elem? (up_servers m.ring) j ≡ some b
    → ((k : ℕ) × (k < length (up_servers m.ring))
        × (hops k (m.ring.store a).chmpxid m ≡ (m.ring.store b).chmpxid))
      × (hops (length (up_servers m.ring)) (m.ring.store a).chmpxid m ≡ (m.ring.store a).chmpxid)
hops-reach m i a j b v e f =
    let n = length (up_servers m.ring) in
    let i_lt : i < n = lt-length_of_get_elem? (up_servers m.ring) i a e in
    let j_lt : j < n = lt-length_of_get_elem? (up_servers m.ring) j b f in
    let (k, small, at_j) = distance n i j i_lt j_lt in
    let at_i : (i + n) % n ≡ i =
      mod_wrap (i + n) n (omega arith) (omega (arith, i_lt)) ∙ omega arith in
    ((k, small, hops_to m i a j b k v e f at_j), hops_to m i a i a n v e e at_i)
