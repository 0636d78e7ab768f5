-- ===== src/Merge/Safe/Steady.antt =====
-- What the operations on the RING leave alone: statuses, names, modes and the list.
use chmpx.Base.{
  ℕ, ◌≡◌, refl, ◌∙◌, Bool, true, false, not, some, List, [], ◌∷◌, arith, length, length-set, any,
  if◌then◌else◌, not_empty,
}
use chmpx.Status.{is_operating, is_basehash, srvout_down_normal}
use chmpx.Ring.{
  Ring, Mode, invalid_hashval, hashtg_both, touch, set_hash, set_status, assign_base,
  assign_pending, update_hash_from, update_hash, base_hash_count, count_status,
}
use chmpx.Ring.Walk.{ring_is_operating, service_out_all, check_all_service_out_status}

pub record Steady (r r' : Ring) : Type 0 where
  pub status : (x : ℕ) → (r'.store x).status ≡ (r.store x).status
  pub has_name : (x : ℕ) → (r'.store x).has_name ≡ (r.store x).has_name
  pub mode : (x : ℕ) → (r'.store x).mode ≡ (r.store x).mode
  pub servers : r'.servers ≡ r.servers
  pub base_arr : length r'.base_arr ≡ length r.base_arr

pub Steady-refl : (r : Ring) → Steady r r
Steady-refl r = record {
  status = λ x. refl;
  has_name = λ x. refl;
  mode = λ x. refl;
  servers = refl;
  base_arr = refl;
}

pub Steady-trans : {r s t : Ring} → Steady r s → Steady s t → Steady r t
Steady-trans p q = record {
  status = λ x. q.status x ∙ p.status x;
  has_name = λ x. q.has_name x ∙ p.has_name x;
  mode = λ x. q.mode x ∙ p.mode x;
  servers = q.servers ∙ p.servers;
  base_arr = q.base_arr ∙ p.base_arr;
}

pub touch-Steady : (now a : ℕ) (r : Ring) → Steady r (touch now a r)
unfolding touch
touch-Steady now a r = record {
  status = λ x. ground arith;
  has_name = λ x. ground arith;
  mode = λ x. ground arith;
  servers = refl;
  base_arr = refl;
}

pub set_hash-Steady :
    (now a base pending type : ℕ) (r : Ring) → Steady r (set_hash now a base pending type r).1
unfolding set_hash
set_hash-Steady now a base pending type r = record {
  status = λ x. ground arith;
  has_name = λ x. ground arith;
  mode = λ x. ground arith;
  servers = ground arith;
  base_arr = ground (arith, length-set r.base_arr base (some a));
}

assign_base-Steady : (now type a nb : ℕ) (r : Ring) → Steady r (assign_base now type a nb r).1
unfolding assign_base
assign_base-Steady now type a nb r = record {
  status = λ x. ground arith;
  has_name = λ x. ground arith;
  mode = λ x. ground arith;
  servers = ground arith;
  base_arr =
      ground
        (arith, length-set r.base_arr nb (some a), length-set r.base_arr invalid_hashval (some a));
}

assign_pending-Steady : (now type a np : ℕ) (r : Ring) → Steady r (assign_pending now type a np r).1
unfolding assign_pending
assign_pending-Steady now type a np r = record {
  status = λ x. ground arith;
  has_name = λ x. ground arith;
  mode = λ x. ground arith;
  servers = ground arith;
  base_arr = ground arith;
}

Steady-unless :
    (b : Bool) {r : Ring} (d : Bool) (out : Bool × Ring)
    → Steady r out.1
    → Steady r (if b then (d, r) else out).1
Steady-unless true {r} d out p = Steady-refl r
Steady-unless false d out p = p

update_hash_from-Steady :
    (now type : ℕ) (nodes : List ℕ) (nb np : ℕ) (r : Ring)
    → Steady r (update_hash_from now type nodes nb np r).1
unfolding update_hash_from
update_hash_from-Steady now type [] nb np r = Steady-refl r
update_hash_from-Steady now type (a ∷ rest) nb np r =
    let one = assign_base now type a nb r in
    let two = assign_pending now type a np one.1 in
    Steady-unless (not (r.store a).has_name) false
      (update_hash_from now type rest one.0 two.0 two.1)
      (Steady-trans
        (Steady-trans (assign_base-Steady now type a nb r)
          (assign_pending-Steady now type a np one.1))
        (update_hash_from-Steady now type rest one.0 two.0 two.1))

pub update_hash-Steady : (now type : ℕ) (r : Ring) → Steady r (update_hash now type r).1
unfolding update_hash
update_hash-Steady now type r =
    choice (not_empty r.servers) (update_hash_from now type r.servers 0 0 r)
      (update_hash_from-Steady now type r.servers 0 0 r)
  where
    choice :
        (b : Bool) (out : Bool × Ring) → Steady r out.1 → Steady r (if b then out else (false, r)).1
    choice true out p = p
    choice false out p = Steady-refl r

module _ {r r' : Ring} (p : Steady r r') where
  count_status-Steady :
      (q : ℕ → Bool) (nodes : List ℕ) → count_status q r'.store nodes ≡ count_status q r.store nodes
  unfolding count_status
  count_status-Steady q [] = refl
  count_status-Steady q (a ∷ rest) = rw (p.status a, count_status-Steady q rest) refl

  any-Steady :
      (q : ℕ → Bool) (nodes : List ℕ)
      → any (λ a. q (r'.store a).status) nodes ≡ any (λ a. q (r.store a).status) nodes
  any-Steady q [] = refl
  any-Steady q (a ∷ rest) = rw (p.status a, any-Steady q rest) refl

  pub base_hash_count-Steady : base_hash_count r' ≡ base_hash_count r
  unfolding base_hash_count
  base_hash_count-Steady = rw p.servers (count_status-Steady is_basehash r.servers)

  pub ring_is_operating-Steady : ring_is_operating r' ≡ ring_is_operating r
  unfolding ring_is_operating
  ring_is_operating-Steady = rw p.servers (any-Steady is_operating r.servers)

-- A change of a status keeps all modes.
pub set_status-mode :
    (now a status : ℕ) (r : Ring) (x : ℕ)
    → ((set_status now a status r).1.store x).mode ≡ (r.store x).mode
unfolding set_status
set_status-mode now a status r x = ground arith

service_out_all-mode :
    (now : ℕ) (nodes : List ℕ) (r : Ring) (x : ℕ)
    → ((service_out_all now nodes r).1.store x).mode ≡ (r.store x).mode
unfolding service_out_all
service_out_all-mode now [] r x = refl
service_out_all-mode now (a ∷ rest) r x =
    let one = set_status now a srvout_down_normal r in
    let two = set_hash now a invalid_hashval invalid_hashval hashtg_both one.1 in
    let out = if one.0 then two else (false, one.1) in
    service_out_all-mode now rest out.1 x
    ∙ (choice one.0 two (false, one.1)
          ((set_hash-Steady now a invalid_hashval invalid_hashval hashtg_both one.1).mode x) refl
        ∙ set_status-mode now a srvout_down_normal r x)
  where
    choice :
        (b : Bool) (s t : Bool × Ring) {m : Mode}
        → (s.1.store x).mode ≡ m
        → (t.1.store x).mode ≡ m
        → ((if b then s else t).1.store x).mode ≡ m
    choice true s t h k = h
    choice false s t h k = k

pub check_all-mode :
    (now : ℕ) (r : Ring) (x : ℕ)
    → ((check_all_service_out_status now r).1.store x).mode ≡ (r.store x).mode
unfolding check_all_service_out_status
check_all-mode now r x = ground (arith, service_out_all-mode now r.servers r x)
