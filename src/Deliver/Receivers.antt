-- ===== src/Deliver/Receivers.antt =====
-- The servers that are left of a list, and the same for the state that a selection leaves behind.
use chmpx.Base.{
  ℕ, ◌≡◌, refl, Bool, true, false, not, ◌&&◌, ◌==◌, if◌then◌else◌, Bool-cases, inl, inr, arith,
  Option, none, some, List, [], ◌∷◌, get_elem?, ◌%◌,
}
use chmpx.Status.{is_servicing, srvout_down_normal}
use chmpx.Status.Safe.{IsSafe, safe_agree}
use chmpx.Man.{Man, Filter, contains, server_at, get_servers_by_hash, get_server_chmpxid_by_hash}
use chmpx.Man.Select.{find_server}
use chmpx.Man.Select.RingOrder.{find_server-invalid}
use chmpx.Ring.{Chmpx, invalid_chmpxid}
use chmpx.Merge.{server_status}
use chmpx.Deliver.{is_taken, is_left_out, first_taken, erase}

-- The two tests of a status are opposites on the safe statuses.
pub taken_or_left_out : (s : ℕ) → IsSafe s → is_taken s ≡ not (is_left_out s)
unfolding is_taken is_left_out
taken_or_left_out = safe_agree is_taken (λ s. not (is_left_out s)) refl

abbrev pub head : List ℕ → Option ℕ
head [] = none
head (x ∷ xs) = some x

pub first_taken-erase :
    (not_self : Bool) (self : ℕ) (m : Man) (xs : List ℕ)
    → ((x : ℕ) → IsSafe (server_status x m))
    → first_taken not_self self m xs ≡ head (erase not_self self m xs)
unfolding first_taken erase
first_taken-erase ns self m [] safe = refl
first_taken-erase ns self m (x ∷ xs) safe =
    ground
      (arith, first_taken-erase ns self m xs safe, taken_or_left_out (server_status x m) (safe x))

==-refl : (x : ℕ) → (x == x) ≡ true
==-refl x = ground arith

pub contains-erase :
    (not_self : Bool) (self : ℕ) (m : Man) (x : ℕ) (xs : List ℕ)
    → contains x (erase not_self self m xs)
      ≡ (contains x xs && not (not_self && self == x) && not (is_left_out (server_status x m)))
unfolding contains erase
contains-erase ns self m x [] = refl
contains-erase ns self m x (y ∷ ys) =
    let ih = contains-erase ns self m x ys in
    elim (Bool-cases (y == x)) [
      | inl e ↦ (let same : y ≡ x = ground arith in rw (same, ==-refl x) (ground arith))
      | inr e ↦ rw e (ground arith)
    ]

last_only :
    (b : Bool) (id : ℕ) (m : Man) (x : ℕ)
    → server_status x (if b then m else record m { last_chmpxid = id }) ≡ server_status x m
unfolding server_status find_server
last_only true id m x = refl
last_only false id m x = refl

pub server_status-get_servers :
    (hash : ℕ) (f : Filter) (m : Man) (x : ℕ)
    → server_status x (get_servers_by_hash hash f m).3 ≡ server_status x m
unfolding get_servers_by_hash
server_status-get_servers hash f m x = elim (Bool-cases (m.bhash_count == 0)) [
  | inl e ↦ rw e refl
  | inr e ↦ rw e (last_only _ _ m x)
]

placed :
    (o : Option ℕ) (m : Man) (x : ℕ)
    → (let out : ℕ × Man = elim o [
      | none ↦ (invalid_chmpxid, m)
      | some a ↦ ((m.ring.store a).chmpxid, record m { last_chmpxid = (m.ring.store a).chmpxid })
    ] in
        server_status x out.1)
      ≡ server_status x m
unfolding server_status find_server
placed none m x = refl
placed (some a) m x = refl

pub server_status-get_server :
    (hash : ℕ) (m : Man) (x : ℕ)
    → server_status x (get_server_chmpxid_by_hash hash m).1 ≡ server_status x m
unfolding get_server_chmpxid_by_hash
server_status-get_server hash m x = elim (Bool-cases (m.bhash_count == 0)) [
  | inl e ↦ rw e refl
  | inr e ↦ rw e (placed (server_at true (hash % m.bhash_count) m.ring) m x)
]

-- No server has the invalid id.
unknown_status :
    (servers : List ℕ) (o : Option ℕ) (store : ℕ → Chmpx)
    → o ≡ none
    → (let status : ℕ = elim servers [
      | [] ↦ 0
      | first ∷ rest ↦ elim o [ none ↦ srvout_down_normal | some a ↦ (store a).status ]
    ] in
        is_servicing status)
      ≡ false
unfolding is_servicing
unknown_status [] o store e = refl
unknown_status (a ∷ rest) o store e = rw e refl

invalid_status : (m : Man) → is_servicing (server_status invalid_chmpxid m) ≡ false
unfolding server_status
invalid_status m =
    unknown_status m.ring.servers (find_server invalid_chmpxid m) m.ring.store
      (find_server-invalid m)

pub servicing_is_valid :
    (x : ℕ) (m : Man) → is_servicing (server_status x m) ≡ true → (x == invalid_chmpxid) ≡ false
servicing_is_valid x m h = elim (Bool-cases (x == invalid_chmpxid)) [
  | inl e ↦
      (let same : x ≡ invalid_chmpxid = ground arith in
        absurd (ground (arith, invalid_status m, same)))
  | inr e ↦ e
]

pub first_taken-head :
    (self : ℕ) (m : Man) (x : ℕ) (xs : List ℕ)
    → get_elem? xs 0 ≡ some x
    → is_taken (server_status x m) ≡ true
    → first_taken false self m xs ≡ some x
unfolding first_taken
first_taken-head self m x [] e h = ground arith
first_taken-head self m x (y ∷ ys) e h = ground arith
