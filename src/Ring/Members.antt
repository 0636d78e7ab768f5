-- ===== src/Ring/Members.antt =====
-- The servers of one hash ring: the independent description against which the hash numbering, the
-- arrays and the selections of servers are proved.
use chmpx.Base.{
  ℕ, ◌≡◌, refl, Bool, true, not, ◌&&◌, ◌==◌, if◌then◌else◌, List, [], ◌∷◌, arith, all, length,
}
use chmpx.Ring.{Chmpx, Ring, count_status}

-- Two rings that differ in hash values and times only.
pub record Same (r r' : Ring) : Type 0 where
  pub status : (x : ℕ) → (r'.store x).status ≡ (r.store x).status
  pub has_name : (x : ℕ) → (r'.store x).has_name ≡ (r.store x).has_name
  pub chmpxid : (x : ℕ) → (r'.store x).chmpxid ≡ (r.store x).chmpxid
  pub servers : r'.servers ≡ r.servers

-- The nodes whose status passes a test, in the order of the list.
abbrev pub members : (ℕ → Bool) → (ℕ → Chmpx) → List ℕ → List ℕ
members p store [] = []
members p store (a ∷ rest) =
    if p (store a).status then a ∷ members p store rest else members p store rest

abbrev pub not_in : ℕ → List ℕ → Bool
not_in a = all (λ x. not (x == a))

-- No node stands twice in the list.
abbrev pub distinct : List ℕ → Bool
distinct [] = true
distinct (a ∷ rest) = not_in a rest && distinct rest

-- Every node of the list has a name.
abbrev pub all_named : (ℕ → Chmpx) → List ℕ → Bool
all_named store = all (λ a. (store a).has_name)

pub count_status-length :
    (p : ℕ → Bool) (store : ℕ → Chmpx) (nodes : List ℕ)
    → count_status p store nodes ≡ length (members p store nodes)
unfolding count_status
count_status-length p store [] = refl
count_status-length p store (a ∷ rest) = ground (arith, count_status-length p store rest)

module _ (p : ℕ → Bool) {r r' : Ring} (same : Same r r') where
  pub members-Same : (nodes : List ℕ) → members p r'.store nodes ≡ members p r.store nodes
  members-Same [] = refl
  members-Same (a ∷ rest) = rw (same.status a, members-Same rest)

pub all_named-Same :
    {r r' : Ring}
    → Same r r'
    → (nodes : List ℕ) → all_named r'.store nodes ≡ all_named r.store nodes
all_named-Same same [] = refl
all_named-Same same (a ∷ rest) = rw (same.has_name a, all_named-Same same rest)

pub Same-trans : {r s t : Ring} → Same r s → Same s t → Same r t
Same-trans p q = record {
  status = λ x. ground (arith, p.status x, q.status x);
  has_name = λ x. ground (arith, p.has_name x, q.has_name x);
  chmpxid = λ x. ground (arith, p.chmpxid x, q.chmpxid x);
  servers = ground arith;
}

pub Same-refl : (r : Ring) → Same r r
Same-refl r = record {
  status = λ x. refl;
  has_name = λ x. refl;
  chmpxid = λ x. refl;
  servers = refl;
}
