-- ===== src/Merge/Settle/Kin.antt =====
-- A state in which servers are found as in another one.
use chmpx.Base.{
  ℕ, ◌≡◌, refl, sym, ap, ◌∙◌, subst, Bool, true, false, ◌==◌, Bool-cases, inl, inr, Option, none,
  some, List, [], ◌∷◌, arith, all, &&-eq-true,
}
use chmpx.Ring.{Chmpx, Ring, invalid_chmpxid}
use chmpx.Ring.Walk.{find_by_status_from}
use chmpx.IdMap.{Buckets, bucket, is_in, is_server_mode, search_chain, search_chmpxid}
use chmpx.Man.{Man}
use chmpx.Man.Select.{find_server}
use chmpx.Man.Select.RingOrder.{finds}
use chmpx.Merge.Settle.Moved.{Moved}

-- The own node stands in the list, and the search of an id finds every node of the list.
pub record Findable (m : Man) : Type 0 where
  pub own : is_in m.self m.ring.servers ≡ true
  pub known : all (finds m) m.ring.servers ≡ true

pub all-is_in :
    (p : ℕ → Bool) (x : ℕ) (xs : List ℕ) → all p xs ≡ true → is_in x xs ≡ true → p x ≡ true
all-is_in p x [] h m = cc
all-is_in p x (y ∷ ys) h m = elim (Bool-cases (y == x)) [
  | inl e ↦ (let same : y ≡ x = ground arith in rw same at (&&-eq-true (p y) (all p ys) h).0)
  | inr e ↦
      (let further : is_in x ys ≡ true = ground arith in
        all-is_in p x ys (&&-eq-true (p y) (all p ys) h).1 further)
]

-- The node that GetChmpxIdByStatus finds
pub found_node :
    (old : ℕ) (store : ℕ → Chmpx) (nodes : List ℕ)
    → (find_by_status_from old false store nodes == invalid_chmpxid) ≡ false
    → (b : ℕ) × (is_in b nodes ≡ true)
      × ((old == (store b).status) ≡ true)
      × ((store b).chmpxid ≡ find_by_status_from old false store nodes)
unfolding find_by_status_from
found_node old store [] h = absurd (ground arith)
found_node old store (a ∷ rest) h = elim (Bool-cases (old == (store a).status)) [
  | inl e ↦ (a, ground arith, e, rw e refl)
  | inr e ↦
      (let (b, here, has, id) = found_node old store rest (rw e at h) in
        (b, ground arith, has, rw e id))
]

search_chain-Moved :
    (old : ℕ) (r r' : Ring) (is_server : Bool) (id : ℕ) (chain : List ℕ)
    → Moved old r r'
    → search_chain r'.store is_server id chain ≡ search_chain r.store is_server id chain
unfolding search_chain
search_chain-Moved old r r' is_server id [] p = refl
search_chain-Moved old r r' is_server id (a ∷ rest) p =
    rw (p.chmpxid a, p.mode a, search_chain-Moved old r r' is_server id rest p) refl

-- A state with the same list, ids, modes, map and own node
pub record Kin (old : ℕ) (m m' : Man) : Type 0 where
  pub moved : Moved old m.ring m'.ring
  pub self : m'.self ≡ m.self
  pub map : m'.chmpxid_map ≡ m.chmpxid_map

find-Moved :
    (old id : ℕ) (r r' : Ring) (map map' : Buckets) (servers servers' : List ℕ)
    → Moved old r r'
    → map' ≡ map
    → servers' ≡ servers
    → (let out : Option ℕ = elim servers' [
      | [] ↦ none
      | first ∷ rest ↦ search_chmpxid r'.store (is_server_mode (r'.store first)) id map'
    ] in
        out)
      ≡ (let out : Option ℕ = elim servers [
        | [] ↦ none
        | first ∷ rest ↦ search_chmpxid r.store (is_server_mode (r.store first)) id map
      ] in
          out)
unfolding search_chmpxid
find-Moved old id r r' map map' [] servers' p e f = rw f refl
find-Moved old id r r' map map' (first ∷ rest) servers' p e f =
    rw (f, e)
      (rw
        (
          p.mode first,
          search_chain-Moved old r r' (is_server_mode (r.store first)) id (map (bucket id)) p,
        )
        refl)

find_server-Kin : (old id : ℕ) (m m' : Man) → Kin old m m' → find_server id m' ≡ find_server id m
unfolding find_server
find_server-Kin old id m m' k =
    find-Moved old id m.ring m'.ring m.chmpxid_map m'.chmpxid_map m.ring.servers m'.ring.servers
      k.moved k.map k.moved.servers

all-same : (p q : ℕ → Bool) (xs : List ℕ) → ((x : ℕ) → p x ≡ q x) → all p xs ≡ all q xs
all-same p q [] h = refl
all-same p q (x ∷ xs) h = rw (h x, all-same p q xs h) refl

finds-Kin : (old a : ℕ) (m m' : Man) → Kin old m m' → finds m' a ≡ finds m a
finds-Kin old a m m' k =
    ap (λ o. elim o as (λ x. Bool) [ none ↦ false | some b ↦ b == a ])
      (ap (λ id. find_server id m') (k.moved.chmpxid a)
        ∙ find_server-Kin old (m.ring.store a).chmpxid m m' k)

pub Findable-Kin : (old : ℕ) (m m' : Man) → Kin old m m' → Findable m → Findable m'
Findable-Kin old m m' k f = record {
  own =
      subst (λ l. is_in m'.self l ≡ true) (sym k.moved.servers)
        (subst (λ a. is_in a m.ring.servers ≡ true) (sym k.self) f.own);
  known =
      subst (λ l. all (finds m') l ≡ true) (sym k.moved.servers)
        (all-same (finds m') (finds m) m.ring.servers (λ a. finds-Kin old a m m' k) ∙ f.known);
}
