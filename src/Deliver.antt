-- ===== src/Deliver.antt =====
-- lib/chmimdata.cc, ChmIMData::GetReceiverChmpxids: the servers that a message of a client goes to,
-- by its hash and its type (lib/chmcomstructure.h, c2ctype_t).
pub mod Routing
pub mod Receivers
mod Tests
use chmpx.Base.{
  ℕ, Bool, true, false, not, ◌&&◌, ◌||◌, ◌==◌, if◌then◌else◌, Option, none, some, List, [], ◌∷◌,
  bit_and, ltb, not_empty,
}
use chmpx.Status.{is_noact, is_add, is_delete, is_servicing, is_suspend}
use chmpx.Ring.{Chmpx, invalid_chmpxid, get_chmpxids_from}
use chmpx.Man.{Man, Filter, get_server_chmpxid_by_hash, get_servers_by_hash}
use chmpx.Man.Select.{get_random_server_chmpxid}
use chmpx.Merge.{server_status}
use chmpx.Merge.Status.{is_nothing}

-- COM_C2C_*
abbrev pub c2c_normal : ℕ
c2c_normal = 1

abbrev pub c2c_routing : ℕ
c2c_routing = 2

abbrev pub c2c_broadcast : ℕ
c2c_broadcast = 3

abbrev pub c2c_rbroadcast : ℕ
c2c_rbroadcast = 4

abbrev pub c2c_mode_mask : ℕ
c2c_mode_mask = 7

abbrev pub c2c_not_self : ℕ
c2c_not_self = 16

-- GET_C2CTYPE and IS_C2CTYPE_NOT_SELF
unfoldable pub get_c2ctype : ℕ → ℕ
get_c2ctype type = bit_and c2c_mode_mask type

unfoldable pub is_c2ctype_not_self : ℕ → Bool
is_c2ctype_not_self type = c2c_not_self == bit_and c2c_not_self type

-- The two tests of a server's status: [NOACT][NOTHING] or [DELETE], which is taken, and
-- [NOACT][PENDING / DOING / DONE] or [ADD], which is left out
unfoldable pub is_taken : ℕ → Bool
unfolding is_noact is_nothing is_delete
is_taken s = (is_noact s && is_nothing s) || is_delete s

unfoldable pub is_left_out : ℕ → Bool
unfolding is_noact is_nothing is_add
is_left_out s = (is_noact s && not (is_nothing s)) || is_add s

-- The loop over the servers of a hash that ends at the first one that is taken
unfoldable pub first_taken : Bool → ℕ → Man → List ℕ → Option ℕ
first_taken not_self self m [] = none
first_taken not_self self m (x ∷ rest) =
    let further = first_taken not_self self m rest in
    if not_self && self == x
    then further
    else (if is_taken (server_status x m) then some x else further)

-- The loop that erases servers
unfoldable pub erase : Bool → ℕ → Man → List ℕ → List ℕ
erase not_self self m [] = []
erase not_self self m (x ∷ rest) =
    let further = erase not_self self m rest in
    if not_self && self == x
    then further
    else (if is_left_out (server_status x m) then further else x ∷ further)

-- The default arguments: with pending, without down and suspended servers
abbrev pub by_default : Filter
by_default = record { with_pending = true; without_down = true; without_suspend = true }

-- `push_back` of one id, or -1 for the invalid id
abbrev pub single : ℕ → Option (List ℕ)
single chmpxid = if chmpxid == invalid_chmpxid then none else some (chmpxid ∷ [])

abbrev pub random_receiver : Man → Option (List ℕ) × Man
random_receiver m = let (chmpxid, m') = get_random_server_chmpxid true m in (single chmpxid, m')

-- COM_C2C_ROUTING, from the hash
unfoldable pub routing_receivers : ℕ → Bool → Man → Option (List ℕ) × Man
routing_receivers hash not_self m =
    let (ok, chmpxids, hashes, m') = get_servers_by_hash hash by_default m in
    (
      if ok
          then elim (first_taken not_self (m.ring.store m.self).chmpxid m' chmpxids) [
            | none ↦ none
            | some x ↦ some (x ∷ [])
          ]
          else none,
      m',
    )

-- COM_C2C_BROADCAST
unfoldable pub broadcast_receivers : Bool → Man → Option (List ℕ)
broadcast_receivers not_self m =
    let chmpxids = get_chmpxids_from true true true m.ring.store m.ring.servers in
    if not_empty chmpxids
    then some (erase not_self (m.ring.store m.self).chmpxid m chmpxids)
    else none

-- COM_C2C_RBROADCAST
unfoldable pub rbroadcast_receivers : ℕ → Bool → Man → Option (List ℕ) × Man
rbroadcast_receivers hash not_self m =
    let (ok, chmpxids, hashes, m') = get_servers_by_hash hash by_default m in
    (if ok then some (erase not_self (m.ring.store m.self).chmpxid m' chmpxids) else none, m')

-- The test of the main server of a hash, for COM_C2C_NORMAL
unfoldable pub main_receiver : ℕ → Man → ℕ × Man
main_receiver hash m =
    let (chmpxid, m') = get_server_chmpxid_by_hash hash m in
    let s = server_status chmpxid m' in
    (
      if not (chmpxid == invalid_chmpxid) && (not (is_servicing s) || is_suspend s)
          then invalid_chmpxid
          else chmpxid,
      m',
    )

-- The search among the replicas that follows if the main server is no good
unfoldable pub another_receiver : ℕ → Bool → Man → Option (List ℕ) × Man
another_receiver hash not_self m =
    let (ok, chmpxids, hashes, m') = get_servers_by_hash hash by_default m in
    if ltb 0 m.replica_count
    then (
      if ok
          then elim (first_taken not_self (m.ring.store m.self).chmpxid m' chmpxids) [
            | none ↦ none
            | some x ↦ single x
          ]
          else none,
      m',
    )
    else (none, m)

unfoldable pub normal_receivers : ℕ → Bool → Man → Option (List ℕ) × Man
normal_receivers hash not_self m =
    let (chmpxid, m') = main_receiver hash m in
    let another = another_receiver hash not_self m' in
    if chmpxid == invalid_chmpxid then another else (some (chmpxid ∷ []), m')

-- ChmIMData::GetReceiverChmpxids into an empty list; `none` is -1.
unfoldable pub get_receiver_chmpxids : Bool → ℕ → ℕ → Man → Option (List ℕ) × Man
get_receiver_chmpxids is_random hash c2ctype m =
    let not_self = is_c2ctype_not_self c2ctype in
    let type = get_c2ctype c2ctype in
    if type == c2c_routing
    then (if is_random then random_receiver m else routing_receivers hash not_self m)
    else (if type == c2c_broadcast
        then (broadcast_receivers not_self m, m)
        else (if type == c2c_rbroadcast
            then rbroadcast_receivers hash not_self m
            else (if is_random then random_receiver m else normal_receivers hash not_self m)))
