-- ===== src/Ring/Hash/Step.antt =====
-- One round of UpdateHash: what it writes and what it leaves alone.
use chmpx.Base.{ℕ, suc, ◌≡◌, ◌≢◌, true, false, ◌==◌, if◌then◌else◌, set, some, arith}
use chmpx.Status.{is_basehash}
use chmpx.Ring.Members.{Same}
use chmpx.Ring.{Ring, invalid_hashval, is_hashtg_base, set_hash, assign_base, assign_pending}

set_hash-Same :
    (now a base pending type : ℕ) (r : Ring) → Same r (set_hash now a base pending type r).1
unfolding set_hash
set_hash-Same now a base pending type r = record {
  status = λ x. ground arith;
  has_name = λ x. ground arith;
  chmpxid = λ x. ground arith;
  servers = ground arith;
}

pub assign_base-Same : (now type a nb : ℕ) (r : Ring) → Same r (assign_base now type a nb r).1
unfolding assign_base
assign_base-Same now type a nb r = record {
  status = λ x. ground arith;
  has_name = λ x. ground arith;
  chmpxid = λ x. ground arith;
  servers = ground arith;
}

pub assign_pending-Same : (now type a np : ℕ) (r : Ring) → Same r (assign_pending now type a np r).1
unfolding assign_pending
assign_pending-Same now type a np r = record {
  status = λ x. ground arith;
  has_name = λ x. ground arith;
  chmpxid = λ x. ground arith;
  servers = ground arith;
}

-- The pending round does not touch the base ring.
pub assign_pending-base :
    (now type a np : ℕ) (r : Ring)
    → ((assign_pending now type a np r).1.base_arr ≡ r.base_arr)
      × ((x : ℕ) → ((assign_pending now type a np r).1.store x).base_hash ≡ (r.store x).base_hash)
unfolding assign_pending
assign_pending-base now type a np r = (ground arith, λ x. ground arith)

module _ (now type a nb : ℕ) (r : Ring) (base : is_hashtg_base type ≡ true)
    (named : (r.store a).has_name ≡ true) where
  -- A server of the base ring gets the next number, and the array its address.
  pub assign_base-member :
      is_basehash (r.store a).status ≡ true
      → nb ≢ invalid_hashval
      → ((assign_base now type a nb r).0 ≡ suc nb)
        × ((assign_base now type a nb r).1.base_arr ≡ set r.base_arr nb (some a))
        × ((x : ℕ)
            → ((assign_base now type a nb r).1.store x).base_hash
              ≡ (if x == a then nb else (r.store x).base_hash))
  unfolding assign_base
  assign_base-member member valid = (ground arith, ground arith, λ x. ground arith)

  -- Any other server gets the invalid value, and the array stays.
  pub assign_base-other :
      is_basehash (r.store a).status ≡ false
      → ((assign_base now type a nb r).0 ≡ nb)
        × ((assign_base now type a nb r).1.base_arr ≡ r.base_arr)
        × ((x : ℕ)
            → ((assign_base now type a nb r).1.store x).base_hash
              ≡ (if x == a then invalid_hashval else (r.store x).base_hash))
  unfolding assign_base
  assign_base-other other = (ground arith, ground arith, λ x. ground arith)
