-- ===== src/Ring.antt =====
-- lib/chmstructure.h and lib/chmstructure.tcc, the list of servers on the RING (CHMPX, CHMPXLIST,
-- chmpx_lap, chmpxlist_lap) with the two hash arrays. The shared memory is a store of CHMPX
-- structures by address; the doubly linked list is the sequence of its nodes' addresses from the
-- first to the last, and a lap's current pointer is a position in it. A node and the CHMPX in it
-- have one address.
pub mod Members
pub mod Walk
pub mod Hash
use chmpx.Base.{
  ℕ, suc, ◌+◌, ◌-◌, ◌^◌, Bool, true, false, not, ◌&&◌, ◌||◌, ◌==◌, if◌then◌else◌, Option, none,
  some, List, [], ◌∷◌, set, bit_and, not_empty,
}
use chmpx.Status.{is_basehash, is_pendinghash, is_down, is_suspend, is_safe}

-- CHM_INVALID_CHMPXID and CHM_INVALID_HASHVAL are both -1 in 64 bits.
abbrev pub invalid_chmpxid : ℕ
invalid_chmpxid = 2 ^ 64 - 1

abbrev pub invalid_hashval : ℕ
invalid_hashval = 2 ^ 64 - 1

-- CHMPXMODE
pub data Mode : Type 0 where
  unknown_mode server_mode slave_mode : Mode

-- CHMPX: the members that the RING reads and writes. `has_name` tells whether name[0] is not '\0';
-- the code takes a CHMPX without a name as not initialized.
pub record Chmpx : Type 0 where
  pub chmpxid : ℕ
  pub has_name : Bool
  pub mode : Mode
  pub base_hash : ℕ
  pub pending_hash : ℕ
  pub last_status_time : ℕ
  pub status : ℕ

-- The part of CHMPXMAN that the list works on: `none` in an array is the null pointer.
pub record Ring : Type 0 where
  pub store : ℕ → Chmpx
  pub servers : List ℕ
  pub base_arr : List (Option ℕ)
  pub pend_arr : List (Option ℕ)

-- A write to one address.
abbrev pub update {ℓ} : {A : Type ℓ} → (ℕ → A) → ℕ → A → ℕ → A
update f a v x = if x == a then v else f x

-- HASHTG_BASE, HASHTG_PENDING and their tests
abbrev pub hashtg_base : ℕ
hashtg_base = 1

abbrev pub hashtg_pending : ℕ
hashtg_pending = 2

abbrev pub hashtg_both : ℕ
hashtg_both = 3

unfoldable pub is_hashtg_base : ℕ → Bool
is_hashtg_base type = not (0 == bit_and type hashtg_base)

unfoldable pub is_hashtg_pending : ℕ → Bool
is_hashtg_pending type = not (0 == bit_and type hashtg_pending)

-- The base part of chmpx_lap::Set(base, pending, type): a valid value is entered into the array, an
-- old entry is not cleared.
unfoldable pub set_base : ℕ → ℕ → Ring → Ring
set_base a base r = record r {
  store = update r.store a (record (r.store a) { base_hash = base });
  base_arr = if base == invalid_hashval then r.base_arr else set r.base_arr base (some a);
}

-- The pending part
unfoldable pub set_pending : ℕ → ℕ → Ring → Ring
set_pending a pending r = record r {
  store = update r.store a (record (r.store a) { pending_hash = pending });
  pend_arr = if pending == invalid_hashval then r.pend_arr else set r.pend_arr pending (some a);
}

-- chmpx_lap::UpdateLastStatusTime; the clock's reading is an argument.
unfoldable pub touch : ℕ → ℕ → Ring → Ring
touch now a r = record r {
  store = update r.store a (record (r.store a) { last_status_time = now });
}

-- chmpx_lap::Set(base, pending, type)
unfoldable pub set_hash : ℕ → ℕ → ℕ → ℕ → ℕ → Ring → Bool × Ring
unfolding set_base set_pending touch is_hashtg_base is_hashtg_pending
set_hash now a base pending type r =
    if not (r.store a).has_name
    then (false, r)
    else (let r1 = if is_hashtg_base type then set_base a base r else r in
        let r2 = if is_hashtg_pending type then set_pending a pending r1 else r1 in
        if is_hashtg_base type || is_hashtg_pending type
        then (true, touch now a r2)
        else (false, r2))

-- chmpx_lap::SetStatus
unfoldable pub set_status : ℕ → ℕ → ℕ → Ring → Bool × Ring
unfolding is_safe
set_status now a status r =
    if not (r.store a).has_name || not (is_safe status) then (false, r) else (
      true,
      record r {
        store = update r.store a (record (r.store a) { status = status; last_status_time = now });
      },
    )

-- One round of chmpxlist_lap::UpdateHash at a node with a name: the two counters and the ring.
unfoldable pub assign_base : ℕ → ℕ → ℕ → ℕ → Ring → ℕ × Ring
unfolding is_hashtg_base is_basehash set_hash
assign_base now type a newbase r =
    if is_hashtg_base type
    then (if is_basehash (r.store a).status
        then (suc newbase, (set_hash now a newbase 0 hashtg_base r).1)
        else (newbase, (set_hash now a invalid_hashval 0 hashtg_base r).1))
    else (newbase, r)

unfoldable pub assign_pending : ℕ → ℕ → ℕ → ℕ → Ring → ℕ × Ring
unfolding is_hashtg_pending is_pendinghash set_hash
assign_pending now type a newpending r =
    if is_hashtg_pending type
    then (if is_pendinghash (r.store a).status
        then (suc newpending, (set_hash now a 0 newpending hashtg_pending r).1)
        else (newpending, (set_hash now a 0 invalid_hashval hashtg_pending r).1))
    else (newpending, r)

-- The loop of chmpxlist_lap::UpdateHash over the nodes that are left; a node without a name ends it.
unfoldable pub update_hash_from : ℕ → ℕ → List ℕ → ℕ → ℕ → Ring → Bool × Ring
update_hash_from now type [] newbase newpending r = (true, r)
update_hash_from now type (a ∷ rest) newbase newpending r =
    let (nb, r1) = assign_base now type a newbase r in
    let (np, r2) = assign_pending now type a newpending r1 in
    let done = update_hash_from now type rest nb np r2 in
    if not (r.store a).has_name then (false, r) else done

-- chmpxlist_lap::UpdateHash
unfoldable pub update_hash : ℕ → ℕ → Ring → Bool × Ring
unfolding update_hash_from
update_hash now type r =
    if not_empty r.servers then update_hash_from now type r.servers 0 0 r else (false, r)

-- chmpxlist_lap::BaseHashCount and PendingHashCount, from the first node
unfoldable pub count_status : (ℕ → Bool) → (ℕ → Chmpx) → List ℕ → ℕ
count_status p store [] = 0
count_status p store (a ∷ rest) =
    if p (store a).status then suc (count_status p store rest) else count_status p store rest

unfoldable pub base_hash_count : Ring → ℕ
unfolding count_status
base_hash_count r = count_status is_basehash r.store r.servers

unfoldable pub pending_hash_count : Ring → ℕ
unfolding count_status
pending_hash_count r = count_status is_pendinghash r.store r.servers

-- chmpxlist_lap::FindByHash from the first node: the address of the node that it stops at.
unfoldable pub find_by_hash_from : (Chmpx → ℕ) → ℕ → (ℕ → Chmpx) → List ℕ → Option ℕ
find_by_hash_from field hash store [] = none
find_by_hash_from field hash store (a ∷ rest) =
    if (store a).has_name && field (store a) == hash
    then some a
    else find_by_hash_from field hash store rest

unfoldable pub find_by_hash : ℕ → Bool → Ring → Option ℕ
unfolding find_by_hash_from
find_by_hash hash is_base r =
    if hash == invalid_hashval
    then none
    else (if is_base
        then find_by_hash_from (λ c. c.base_hash) hash r.store r.servers
        else find_by_hash_from (λ c. c.pending_hash) hash r.store r.servers)

-- chmpxlist_lap::GetChmpxIds(list, with_pending, without_down, without_suspend)
unfoldable pub get_chmpxids_from : Bool → Bool → Bool → (ℕ → Chmpx) → List ℕ → List ℕ
get_chmpxids_from with_pending without_down without_suspend store [] = []
get_chmpxids_from with_pending without_down without_suspend store (a ∷ rest) =
    let status = (store a).status in
    let found = get_chmpxids_from with_pending without_down without_suspend store rest in
    if without_down && is_down status
    then found
    else (if without_suspend && is_suspend status
        then found
        else (if is_basehash status || (with_pending && is_pendinghash status)
            then (store a).chmpxid ∷ found
            else found))
