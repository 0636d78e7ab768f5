-- ===== src/Merge/Settle/Moved.antt =====
-- A new status of a server: who has the old status then, and what stays as it is.
use chmpx.Base.{
  any, length, ℕ, ◌<◌, ◌≤◌, ◌≡◌, refl, ◌∙◌, Bool, true, false, not, ◌&&◌, ◌==◌, if◌then◌else◌, List,
  [], ◌∷◌, arith, Bool-cases, inl, inr, not_empty,
}
use chmpx.Status.{srvout_down_normal, is_slave, is_up}
use chmpx.Ring.{Chmpx, Ring, invalid_hashval, hashtg_both, set_hash, set_status, count_status}
use chmpx.Ring.Walk.{service_out_all, check_all_service_out_status}
use chmpx.IdMap.{is_in}

-- Ids, modes and the list stay, and no server has got the old status.
pub record Moved (old : ℕ) (r r' : Ring) : Type 0 where
  pub chmpxid : (x : ℕ) → (r'.store x).chmpxid ≡ (r.store x).chmpxid
  pub mode : (x : ℕ) → (r'.store x).mode ≡ (r.store x).mode
  pub servers : r'.servers ≡ r.servers
  pub none_new : (x : ℕ) → (old == (r'.store x).status) ≡ true → (old == (r.store x).status) ≡ true

pub Moved-refl : (old : ℕ) (r : Ring) → Moved old r r
Moved-refl old r = record {
  chmpxid = λ x. refl;
  mode = λ x. refl;
  servers = refl;
  none_new = λ x h. h;
}

pub Moved-trans : {old : ℕ} {r s t : Ring} → Moved old r s → Moved old s t → Moved old r t
Moved-trans p q = record {
  chmpxid = λ x. q.chmpxid x ∙ p.chmpxid x;
  mode = λ x. q.mode x ∙ p.mode x;
  servers = q.servers ∙ p.servers;
  none_new = λ x h. p.none_new x (q.none_new x h);
}

pub set_status-Moved :
    (old now a status : ℕ) (r : Ring)
    → (old == status) ≡ false
    → Moved old r (set_status now a status r).1
unfolding set_status
set_status-Moved old now a status r h = record {
  chmpxid = λ x. ground arith;
  mode = λ x. ground arith;
  servers = ground arith;
  none_new = λ x k. ground arith;
}

set_hash-Moved :
    (old now a base pending type : ℕ) (r : Ring)
    → Moved old r (set_hash now a base pending type r).1
unfolding set_hash
set_hash-Moved old now a base pending type r = record {
  chmpxid = λ x. ground arith;
  mode = λ x. ground arith;
  servers = ground arith;
  none_new = λ x k. ground arith;
}

pub either :
    (b : Bool) (old : ℕ) (r : Ring) (s t : Bool × Ring)
    → Moved old r s.1
    → Moved old r t.1
    → Moved old r (if b then s else t).1
either true old r s t h k = h
either false old r s t h k = k

service_out_all-Moved :
    (old now : ℕ) (nodes : List ℕ) (r : Ring)
    → (old == srvout_down_normal) ≡ false
    → Moved old r (service_out_all now nodes r).1
unfolding service_out_all
service_out_all-Moved old now [] r h = Moved-refl old r
service_out_all-Moved old now (a ∷ rest) r h =
    let one = set_status now a srvout_down_normal r in
    let two = set_hash now a invalid_hashval invalid_hashval hashtg_both one.1 in
    let out = if one.0 then two else (false, one.1) in
    let first = set_status-Moved old now a srvout_down_normal r h in
    Moved-trans
      (either one.0 old r two (false, one.1)
        (Moved-trans first
          (set_hash-Moved old now a invalid_hashval invalid_hashval hashtg_both one.1))
        first)
      (service_out_all-Moved old now rest out.1 h)

pub check_all-Moved :
    (old now : ℕ) (r : Ring)
    → (old == srvout_down_normal) ≡ false
    → Moved old r (check_all_service_out_status now r).1
unfolding check_all_service_out_status
check_all-Moved old now r h =
    let is_server_node : ℕ → Bool = λ a. not (is_slave (r.store a).status) in
    let out = service_out_all now r.servers r in
    let none_server = not (any is_server_node r.servers) in
    let some_up = any (λ a. is_server_node a && is_up (r.store a).status) r.servers in
    let then_out : Bool × Ring = if none_server then (true, r) else out in
    either (not (not_empty r.servers)) old r (false, r) (if some_up then (true, r) else then_out)
      (Moved-refl old r)
      (either some_up old r (true, r) then_out (Moved-refl old r)
        (either none_server old r (true, r) out (Moved-refl old r)
          (service_out_all-Moved old now r.servers r h)))

-- The number of nodes with a status
abbrev pub having : ℕ → (ℕ → Chmpx) → List ℕ → ℕ
having old = count_status (λ s. old == s)

having_mono :
    (old : ℕ) (r r' : Ring) (nodes : List ℕ)
    → Moved old r r'
    → having old r'.store nodes ≤ having old r.store nodes
unfolding count_status
having_mono old r r' [] p = omega arith
having_mono old r r' (a ∷ rest) p = ground (arith, having_mono old r r' rest p, p.none_new a)

-- One node less has the old status if a node of the list has lost it.
pub having-less :
    (old : ℕ) (r r' : Ring) (a : ℕ) (nodes : List ℕ)
    → Moved old r r'
    → is_in a nodes ≡ true
    → (old == (r.store a).status) ≡ true
    → (old == (r'.store a).status) ≡ false
    → having old r'.store nodes < having old r.store nodes
unfolding count_status
having-less old r r' a [] p m h k = cc
having-less old r r' a (b ∷ rest) p m h k =
    let fewer = having_mono old r r' rest p in
    elim (Bool-cases (b == a)) [
      | inl e ↦ (let same : b ≡ a = ground arith in rw (same, h, k) (omega arith))
      | inr e ↦
          (let further : is_in a rest ≡ true = ground arith in
            ground (arith, having-less old r r' a rest p further h k, p.none_new b))
    ]

pub having-length :
    (old : ℕ) (store : ℕ → Chmpx) (nodes : List ℕ) → having old store nodes ≤ length nodes
unfolding count_status
having-length old store [] = omega arith
having-length old store (a ∷ rest) = ground (arith, having-length old store rest)
