-- ===== src/Man/Replicas.antt =====
-- All servers that a hash value goes to: the main server and its replicas.
use chmpx.Base.{
  ℕ, zero, suc, ◌+◌, ◌%◌, ◌≤◌, ◌<◌, ◌≡◌, refl, true, Option, none, some, length, get_elem?, arith,
  inl, inr, Bool-cases,
}
use chmpx.Ring.{Chmpx, Ring}
use chmpx.Ring.Members.{distinct}
use chmpx.Man.{
  Man, Found, Filter, contains, push_new, passes, visit, collect, nothing_found, server_at,
}
use chmpx.Man.Contains.{contains-push_new, distinct-push_new, length-push_new}
use chmpx.Man.Route.{base_servers, Routed, server_numbered, server_at_lem}

-- The registration of a server that passes the checks.
abbrev pub register : Chmpx → Found → Found
register c found = record {
  chmpxids = push_new c.chmpxid found.chmpxids;
  hashes = push_new c.base_hash found.hashes;
  last = c.chmpxid;
}

-- A round of the base loop either registers the server with the round's number, or does nothing.
pub visit-cases {ℓ} :
    (P : Found → Type ℓ) (f : Filter) (m : Man) (t a : ℕ) (found : Found)
    → Routed m
    → get_elem? (base_servers m.ring) t ≡ some a
    → P found
    → (passes true f (m.ring.store a) ≡ true → P (register (m.ring.store a) found))
    → P (visit true f (server_at true t m.ring) m.ring found)
unfolding visit
visit-cases P f m t a found v e skip go =
    rw (server_at_lem m t a v e) (elim (Bool-cases (passes true f (m.ring.store a))) [
      | inl h ↦ rw (h, visit) (go h)
      | inr h ↦ rw (h, visit) skip
    ])

-- What every registration of a server of the base ring keeps, the base loop keeps.
collect_inv {ℓ} :
    (P : Found → Type ℓ) (f : Filter) (m : Man) (start : ℕ)
    → Routed m
    → 0 < m.bhash_count
    → ((t a : ℕ) (found : Found)
        → get_elem? (base_servers m.ring) t ≡ some a
        → passes true f (m.ring.store a) ≡ true
        → P found
        → P (register (m.ring.store a) found))
    → (left cnt : ℕ) (found : Found) → P found
    → P (collect true f start m.bhash_count left cnt m.ring found)
unfolding collect
collect_inv P f m start v pos keep zero cnt found p = p
collect_inv P f m start v pos keep (suc left) cnt found p =
    let t = (start + cnt) % m.bhash_count in
    let (a, e) = server_numbered m t v (omega arith) in
    collect_inv P f m start v pos keep left (suc cnt) _
      (visit-cases P f m t a found v e p (λ h. keep t a found e h p))

-- What the base loop has collected: every id and every hash value comes from a server of the base
-- ring that passes the checks, and none stands twice.
pub record Sound (f : Filter) (r : Ring) (found : Found) : Type 0 where
  pub ids : distinct found.chmpxids ≡ true
  pub hash_values : distinct found.hashes ≡ true
  pub origin :
      (x : ℕ)
      → contains x found.chmpxids ≡ true
      → (t : ℕ) × (a : ℕ) × (get_elem? (base_servers r) t ≡ some a)
        × ((r.store a).chmpxid ≡ x)
        × (passes true f (r.store a) ≡ true)

register-Sound :
    (f : Filter) (r : Ring) (t a : ℕ) (found : Found)
    → get_elem? (base_servers r) t ≡ some a
    → passes true f (r.store a) ≡ true
    → Sound f r found
    → Sound f r (register (r.store a) found)
register-Sound f r t a found e h s = record {
  ids = distinct-push_new (r.store a).chmpxid found.chmpxids s.ids;
  hash_values = distinct-push_new (r.store a).base_hash found.hashes s.hash_values;
  origin = λ x k. elim (contains-push_new x (r.store a).chmpxid found.chmpxids k) [
    | inl old ↦ s.origin x old
    | inr new ↦ (t, a, e, new, h)
  ];
}

nothing-Sound : (f : Filter) (r : Ring) → Sound f r nothing_found
unfolding contains
nothing-Sound f r = record { ids = refl; hash_values = refl; origin = λ x h. cc }

length-visit :
    (f : Filter) (r : Ring) (found : Found) (o : Option ℕ)
    → length (visit true f o r found).chmpxids ≤ suc (length found.chmpxids)
unfolding visit
length-visit f r found none = omega arith
length-visit f r found (some a) = ground (arith, length-push_new (r.store a).chmpxid found.chmpxids)

-- The loop registers at most one server a round.
pub length-collect :
    (f : Filter) (start n left cnt : ℕ) (r : Ring) (found : Found)
    → length (collect true f start n left cnt r found).chmpxids ≤ length found.chmpxids + left
unfolding collect
length-collect f start n zero cnt r found = omega arith
length-collect f start n (suc left) cnt r found =
    let o = server_at true ((start + cnt) % n) r in
    omega (
      arith,
      length-collect f start n left (suc cnt) r (visit true f o r found),
      length-visit f r found o,
    )

-- What one call collects for the base ring.
abbrev pub collected : Filter → ℕ → Man → Found
collected f hash m =
    let n = m.bhash_count in
    collect true f (hash % n) n (suc m.replica_count) 0 m.ring nothing_found

pub collected-Sound :
    (f : Filter) (hash : ℕ) (m : Man)
    → Routed m
    → 0 < m.bhash_count
    → Sound f m.ring (collected f hash m)
collected-Sound f hash m v pos =
    collect_inv (Sound f m.ring) f m (hash % m.bhash_count) v pos
      (λ t a found e h s. register-Sound f m.ring t a found e h s) (suc m.replica_count) 0
      nothing_found (nothing-Sound f m.ring)
