-- ===== src/Man/SetStatus/Down.antt =====
-- CheckAllServiceOutStatus: when no server is up, every server goes out of service.
use chmpx.Base.{
  ℕ, ◌≡◌, refl, ◌∙◌, Bool, true, false, not, ◌&&◌, ◌||◌, ◌==◌, ==_iff, if◌then◌else◌, Bool-cases,
  inl, inr, ◌⊎◌, List, [], ◌∷◌, arith, any, &&-eq-true, not_empty,
}
use chmpx.Status.{srvout_down_normal, is_safe, is_up, is_slave, is_basehash, is_pendinghash}
use chmpx.Ring.{
  Chmpx, Ring, invalid_hashval, hashtg_both, is_hashtg_base, is_hashtg_pending, set_status,
  set_hash, set_base, set_pending, touch, update, count_status, base_hash_count, pending_hash_count,
}
use chmpx.Ring.Members.{not_in, all_named}
use chmpx.Ring.Walk.{service_out_all, check_all_service_out_status}

-- What the loop has done to the nodes `nodes`.
pub record Downed (nodes : List ℕ) (r : Ring) (out : Bool × Ring) : Type 0 where
  pub done : out.0 ≡ true
  pub servers : out.1.servers ≡ r.servers
  pub base_arr : out.1.base_arr ≡ r.base_arr
  pub has_name : (x : ℕ) → (out.1.store x).has_name ≡ (r.store x).has_name
  pub status :
      (x : ℕ)
      → (out.1.store x).status ≡ (if not_in x nodes then (r.store x).status else srvout_down_normal)
  pub base_hash :
      (x : ℕ)
      → (out.1.store x).base_hash
        ≡ (if not_in x nodes then (r.store x).base_hash else invalid_hashval)
  pub pending_hash :
      (x : ℕ)
      → (out.1.store x).pending_hash
        ≡ (if not_in x nodes then (r.store x).pending_hash else invalid_hashval)

srvout_down-safe : is_safe srvout_down_normal ≡ true
unfolding is_safe
srvout_down-safe = refl

pub all_named-same :
    (f g : ℕ → Chmpx) (xs : List ℕ)
    → ((x : ℕ) → (g x).has_name ≡ (f x).has_name)
    → all_named g xs ≡ all_named f xs
all_named-same f g [] h = refl
all_named-same f g (x ∷ xs) h = rw (h x, all_named-same f g xs h) refl

-- The node's new content, and the two writes that make it.
abbrev downed : ℕ → Chmpx → Chmpx
downed now c = record c {
  base_hash = invalid_hashval;
  pending_hash = invalid_hashval;
  last_status_time = now;
  status = srvout_down_normal;
}

set_status-down :
    (now a : ℕ) (r : Ring)
    → (r.store a).has_name ≡ true
    → set_status now a srvout_down_normal r ≡ (
      true,
      record r {
        store =
            update r.store a
              (record (r.store a) { status = srvout_down_normal; last_status_time = now });
      },
    )
unfolding set_status
set_status-down now a r h = rw (h, srvout_down-safe) refl

set_hash-invalid :
    (now a : ℕ) (r : Ring)
    → (r.store a).has_name ≡ true
    → set_hash now a invalid_hashval invalid_hashval hashtg_both r
      ≡ (true, touch now a (set_pending a invalid_hashval (set_base a invalid_hashval r)))
unfolding set_hash is_hashtg_base is_hashtg_pending
set_hash-invalid now a r h = rw h refl

-- The same at every address.
touched :
    (now a : ℕ) (r : Ring) (x : ℕ)
    → (touch now a (set_pending a invalid_hashval (set_base a invalid_hashval r))).store x ≡ (
        if x == a
        then record (r.store x) {
          base_hash = invalid_hashval;
          pending_hash = invalid_hashval;
          last_status_time = now;
        }
        else r.store x)
unfolding touch set_pending set_base
touched now a r x = ground (arith, ==_iff x a, ==_iff a a)

-- The ring after the new status of one node, and after its hash values.
abbrev with_status : ℕ → ℕ → Ring → Ring
with_status now a r = record r {
  store =
      update r.store a (record (r.store a) { status = srvout_down_normal; last_status_time = now });
}

abbrev down_one : ℕ → ℕ → Ring → Ring
down_one now a r =
    touch now a (set_pending a invalid_hashval (set_base a invalid_hashval (with_status now a r)))

down_one_store :
    (now a : ℕ) (r : Ring) (x : ℕ)
    → (down_one now a r).store x ≡ (if x == a then downed now (r.store x) else r.store x)
down_one_store now a r x = touched now a (with_status now a r) x ∙ ground (arith, ==_iff x a)

service_out_all-cons :
    (now a : ℕ) (rest : List ℕ) (r : Ring)
    → (r.store a).has_name ≡ true
    → service_out_all now (a ∷ rest) r ≡ service_out_all now rest (down_one now a r)
unfolding service_out_all
service_out_all-cons now a rest r h =
    rw
      (
        set_status-down now a r h,
        set_hash-invalid now a (with_status now a r) (ground (arith, ==_iff a a)),
      )
      refl

Downed-cons :
    (now a : ℕ) (rest : List ℕ) (r s : Ring) (out : Bool × Ring)
    → s.servers ≡ r.servers
    → s.base_arr ≡ r.base_arr
    → ((x : ℕ) → s.store x ≡ (if x == a then downed now (r.store x) else r.store x))
    → Downed rest s out
    → Downed (a ∷ rest) r out
Downed-cons now a rest r s out same arr store d = record {
  done = d.done;
  servers = d.servers ∙ same;
  base_arr = d.base_arr ∙ arr;
  has_name = λ x. ground (arith, d.has_name x, store x);
  status = λ x. ground (arith, d.status x, store x, ==_iff x a, ==_iff a x);
  base_hash = λ x. ground (arith, d.base_hash x, store x, ==_iff x a, ==_iff a x);
  pending_hash = λ x. ground (arith, d.pending_hash x, store x, ==_iff x a, ==_iff a x);
}

service_out_all-Downed :
    (now : ℕ) (nodes : List ℕ) (r : Ring)
    → all_named r.store nodes ≡ true
    → Downed nodes r (service_out_all now nodes r)
unfolding service_out_all set_base set_pending touch
service_out_all-Downed now [] r h = record {
  done = refl;
  servers = refl;
  base_arr = refl;
  has_name = λ x. refl;
  status = λ x. refl;
  base_hash = λ x. refl;
  pending_hash = λ x. refl;
}
service_out_all-Downed now (a ∷ rest) r h =
    let (named, others) = &&-eq-true ((r.store a).has_name) _ h in
    let still : all_named (down_one now a r).store rest ≡ true =
      all_named-same r.store (down_one now a r).store rest
        (λ x. ground (arith, down_one_store now a r x))
      ∙ others in
    rw (service_out_all-cons now a rest r named) (
      Downed-cons now a rest r (down_one now a r) _ refl refl (down_one_store now a r)
        (service_out_all-Downed now rest (down_one now a r) still))

-- A node of a server, and one that is up.
abbrev pub is_server_node : Ring → ℕ → Bool
is_server_node r a = not (is_slave (r.store a).status)

abbrev pub is_up_node : Ring → ℕ → Bool
is_up_node r a = is_server_node r a && is_up (r.store a).status

not_in-head : (x : ℕ) (xs : List ℕ) → not_in x (x ∷ xs) ≡ false
not_in-head x xs = ground (arith, ==_iff x x)

count_none :
    (p : ℕ → Bool) (store : ℕ → Chmpx) (nodes : List ℕ)
    → ((x : ℕ) → not_in x nodes ≡ false → p (store x).status ≡ false)
    → count_status p store nodes ≡ 0
unfolding count_status
count_none p store [] h = refl
count_none p store (a ∷ rest) h =
    rw (h a (not_in-head a rest)) (count_none p store rest (λ x k. h x (ground (arith, k))))

srvout_down-rings :
    (is_basehash srvout_down_normal ≡ false) × (is_pendinghash srvout_down_normal ≡ false)
unfolding is_basehash is_pendinghash
srvout_down-rings = (refl, refl)

-- The call has succeeded, and every node is down and out of service with invalid hash values.
pub record AllOut (r : Ring) (out : Bool × Ring) : Type 0 where
  pub done : out.0 ≡ true
  pub servers : out.1.servers ≡ r.servers
  pub base_arr : out.1.base_arr ≡ r.base_arr
  pub has_name : (x : ℕ) → (out.1.store x).has_name ≡ (r.store x).has_name
  pub node :
      (x : ℕ)
      → not_in x r.servers ≡ false
      → ((out.1.store x).status ≡ srvout_down_normal)
        × ((out.1.store x).base_hash ≡ invalid_hashval)
        × ((out.1.store x).pending_hash ≡ invalid_hashval)
  pub base_ring : base_hash_count out.1 ≡ 0
  pub pending_ring : pending_hash_count out.1 ≡ 0

Downed-AllOut : (r : Ring) (out : Bool × Ring) → Downed r.servers r out → AllOut r out
unfolding base_hash_count pending_hash_count
Downed-AllOut r out d = record {
  done = d.done;
  servers = d.servers;
  base_arr = d.base_arr;
  has_name = d.has_name;
  node = λ x k. (status x k, d.base_hash x ∙ rw k refl, d.pending_hash x ∙ rw k refl);
  base_ring = none_left is_basehash srvout_down-rings.0;
  pending_ring = none_left is_pendinghash srvout_down-rings.1;
}
  where
    status : (x : ℕ) → not_in x r.servers ≡ false → (out.1.store x).status ≡ srvout_down_normal
    status x k = d.status x ∙ rw k refl

    none_left :
        (p : ℕ → Bool) → p srvout_down_normal ≡ false → count_status p out.1.store out.1.servers ≡ 0
    none_left p h = rw d.servers (count_none p out.1.store r.servers (λ x k. rw (status x k) h))

-- When every node has a name: if some server of the list is up, or the list has no server, nothing
-- changes, and the call succeeds exactly if the list has a node; otherwise the call succeeds, and
-- every node goes down and out of service with invalid hash values, so that no server is left in the
-- base or in the pending ring.
pub check_all_service_out_status_lem :
    (now : ℕ) (r : Ring)
    → all_named r.store r.servers ≡ true
    → (((any (is_up_node r) r.servers || not (any (is_server_node r) r.servers)) ≡ true)
        × (check_all_service_out_status now r ≡ (not_empty r.servers, r)))
      ⊎ (((not (any (is_up_node r) r.servers) && any (is_server_node r) r.servers) ≡ true)
          × AllOut r (check_all_service_out_status now r))
unfolding check_all_service_out_status
check_all_service_out_status_lem now r named =
    elim (Bool-cases (any (is_up_node r) r.servers || not (any (is_server_node r) r.servers))) [
      | inl e ↦ inl (e, kept r.servers (service_out_all now r.servers r) e)
      | inr e ↦ inr (
        ground arith,
        rw (shape e) (Downed-AllOut r _ (service_out_all-Downed now r.servers r named)),
      )
    ]
  where
    kept :
        (nodes : List ℕ) (out : Bool × Ring)
        → (any (is_up_node r) nodes || not (any (is_server_node r) nodes)) ≡ true
        → (if not (not_empty nodes)
            then (false, r)
            else (if any (is_up_node r) nodes
                then (true, r)
                else (if not (any (is_server_node r) nodes) then (true, r) else out)))
          ≡ (not_empty nodes, r)
    kept [] out h = refl
    kept (a ∷ rest) out h = ground arith

    loops :
        (nodes : List ℕ) (out : Bool × Ring)
        → (any (is_up_node r) nodes || not (any (is_server_node r) nodes)) ≡ false
        → (if not (not_empty nodes)
            then (false, r)
            else (if any (is_up_node r) nodes
                then (true, r)
                else (if not (any (is_server_node r) nodes) then (true, r) else out)))
          ≡ out
    loops [] out h = cc
    loops (a ∷ rest) out h = ground arith

    shape :
        (any (is_up_node r) r.servers || not (any (is_server_node r) r.servers)) ≡ false
        → check_all_service_out_status now r ≡ service_out_all now r.servers r
    shape h = loops r.servers (service_out_all now r.servers r) h
