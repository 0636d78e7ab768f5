-- ===== src/Deliver/Routing.antt =====
-- What GetReceiverChmpxids chooses from the servers of a hash.
use chmpx.Base.{
  ℕ, ◌≡◌, refl, sym, ap, ◌∙◌, ◌<◌, Bool, true, false, not, ◌&&◌, ◌==◌, if◌then◌else◌, Option, none,
  some, List, [], ◌∷◌, get_elem?, &&-eq-true, eq-false_of_not,
}
use chmpx.Status.{is_servicing, is_suspend}
use chmpx.Status.Safe.{IsSafe}
use chmpx.Man.{Man, contains, passes, get_servers_by_hash, get_server_chmpxid_by_hash}
use chmpx.Man.Route.{base_servers, Routed}
use chmpx.Man.Complete.{AllUsable}
use chmpx.Man.Servers.{get_servers_by_hash_sound, get_servers_by_hash_complete}
use chmpx.Merge.{server_status}
use chmpx.Deliver.{
  by_default, is_taken, is_left_out, erase, routing_receivers, rbroadcast_receivers,
  normal_receivers, main_receiver, c2c_normal, c2c_routing, c2c_rbroadcast, get_c2ctype,
  is_c2ctype_not_self, get_receiver_chmpxids,
}
use chmpx.Deliver.Receivers.{
  head, first_taken-erase, contains-erase, server_status-get_servers, server_status-get_server,
  servicing_is_valid, first_taken-head,
}

-- The first receiver of an answer, alone
abbrev pub only_first : Option (List ℕ) → Option (List ℕ)
only_first none = none
only_first (some []) = none
only_first (some (x ∷ xs)) = some (x ∷ [])

by_head :
    (ok : Bool) (o : Option ℕ) (xs : List ℕ)
    → o ≡ head xs
    → (if ok then elim o [ none ↦ none | some x ↦ some (x ∷ []) ] else none)
      ≡ only_first (if ok then some xs else none)
by_head false o xs e = refl
by_head true o [] e = rw e refl
by_head true o (x ∷ xs) e = rw e refl

routing_receivers-rbroadcast_receivers :
    (hash : ℕ) (not_self : Bool) (m : Man)
    → ((x : ℕ) → IsSafe (server_status x m))
    → (routing_receivers hash not_self m).0 ≡ only_first (rbroadcast_receivers hash not_self m).0
unfolding routing_receivers rbroadcast_receivers
routing_receivers-rbroadcast_receivers hash not_self m safe =
    let out = get_servers_by_hash hash by_default m in
    by_head out.0 _ (erase not_self (m.ring.store m.self).chmpxid out.3 out.1) (
      first_taken-erase not_self (m.ring.store m.self).chmpxid out.3 out.1
        (λ x. rw (server_status-get_servers hash by_default m x) (safe x)))

-- Which branch delivers a message that does not go at random
module _ (hash type : ℕ) (m : Man) where
  routing_branch :
      get_c2ctype type ≡ c2c_routing
      → get_receiver_chmpxids false hash type m
        ≡ routing_receivers hash (is_c2ctype_not_self type) m
  unfolding get_receiver_chmpxids
  routing_branch e = rw e refl

  rbroadcast_branch :
      get_c2ctype type ≡ c2c_rbroadcast
      → get_receiver_chmpxids false hash type m
        ≡ rbroadcast_receivers hash (is_c2ctype_not_self type) m
  unfolding get_receiver_chmpxids
  rbroadcast_branch e = rw e refl

  normal_branch :
      get_c2ctype type ≡ c2c_normal
      → get_receiver_chmpxids false hash type m ≡ normal_receivers hash (is_c2ctype_not_self type) m
  unfolding get_receiver_chmpxids
  normal_branch e = rw e refl

-- While the statuses of all servers are safe and messages are not delivered at random, a message of
-- the type ROUTING goes to the first of the servers that a message of the type RBROADCAST with the
-- same hash and the same flag for the own server goes to, and cannot be delivered exactly if
-- RBROADCAST fails or has no receiver.
pub routing-rbroadcast :
    (hash routing rbroadcast : ℕ) (m : Man)
    → get_c2ctype routing ≡ c2c_routing
    → get_c2ctype rbroadcast ≡ c2c_rbroadcast
    → is_c2ctype_not_self routing ≡ is_c2ctype_not_self rbroadcast
    → ((x : ℕ) → IsSafe (server_status x m))
    → (get_receiver_chmpxids false hash routing m).0
      ≡ only_first (get_receiver_chmpxids false hash rbroadcast m).0
routing-rbroadcast hash routing rbroadcast m one all same safe =
    rw (routing_branch hash routing m one, rbroadcast_branch hash rbroadcast m all, same)
      (routing_receivers-rbroadcast_receivers hash (is_c2ctype_not_self rbroadcast) m safe)

-- A receiver of a message that is sent to all servers of a hash, while no servers merge: it is a
-- server of the base hash ring that is up and not suspended, its status is not left out, and it is
-- not the own server if the own server is to be left out.
pub record Receiver (not_self : Bool) (m : Man) (x : ℕ) : Type 0 where
  pub status : is_left_out (server_status x m) ≡ false
  pub other : (not_self && (m.ring.store m.self).chmpxid == x) ≡ false
  pub served :
      (t : ℕ) × (a : ℕ) × (get_elem? (base_servers m.ring) t ≡ some a)
      × ((m.ring.store a).chmpxid ≡ x)
      × (passes true by_default (m.ring.store a) ≡ true)

some_if : (ok : Bool) (xs ids : List ℕ) → (if ok then some xs else none) ≡ some ids → xs ≡ ids
some_if true xs ids e = cc
some_if false xs ids e = cc

-- Every receiver of a message of the type RBROADCAST is a Receiver, when hash values are served and
-- no servers merge.
pub rbroadcast_receivers-Receiver :
    (hash : ℕ) (not_self : Bool) (m : Man) (ids : List ℕ) (x : ℕ)
    → Routed m
    → 0 < m.bhash_count
    → m.is_operating ≡ false
    → (rbroadcast_receivers hash not_self m).0 ≡ some ids
    → contains x ids ≡ true
    → Receiver not_self m x
unfolding rbroadcast_receivers
rbroadcast_receivers-Receiver hash not_self m ids x v pos idle e c =
    let out = get_servers_by_hash hash by_default m in
    let self = (m.ring.store m.self).chmpxid in
    let same = some_if out.0 (erase not_self self out.3 out.1) ids e in
    let left = sym (contains-erase not_self self out.3 x out.1) ∙ ap (contains x) same ∙ c in
    let k = &&-eq-true (contains x out.1 && not (not_self && self == x)) _ left in
    let k' = &&-eq-true (contains x out.1) _ k.0 in
    record {
      status =
          sym (ap is_left_out (server_status-get_servers hash by_default m x))
          ∙ eq-false_of_not _ k.1;
      other = eq-false_of_not _ k'.1;
      served = (get_servers_by_hash_sound hash by_default m v pos idle).4 x k'.0;
    }

main_receiver_lem :
    (hash : ℕ) (m : Man)
    → is_servicing (server_status ((get_server_chmpxid_by_hash hash m).0) m) ≡ true
    → is_suspend (server_status ((get_server_chmpxid_by_hash hash m).0) m) ≡ false
    → main_receiver hash m ≡ get_server_chmpxid_by_hash hash m
unfolding main_receiver
main_receiver_lem hash m servicing sup =
    let main = get_server_chmpxid_by_hash hash m in
    rw
      (
        server_status-get_server hash m main.0,
        servicing,
        sup,
        servicing_is_valid main.0 m servicing,
      )
      refl

normal_receivers-main :
    (hash : ℕ) (m : Man)
    → is_servicing (server_status ((get_server_chmpxid_by_hash hash m).0) m) ≡ true
    → is_suspend (server_status ((get_server_chmpxid_by_hash hash m).0) m) ≡ false
    → (normal_receivers hash false m).0 ≡ some ((get_server_chmpxid_by_hash hash m).0 ∷ [])
unfolding normal_receivers
normal_receivers-main hash m servicing sup =
    let main = get_server_chmpxid_by_hash hash m in
    rw (main_receiver_lem hash m servicing sup, servicing_is_valid main.0 m servicing) refl

routing_receivers-main :
    (hash : ℕ) (m : Man)
    → Routed m
    → AllUsable by_default m.ring
    → m.replica_count < m.bhash_count
    → m.is_operating ≡ false
    → is_taken (server_status ((get_server_chmpxid_by_hash hash m).0) m) ≡ true
    → (routing_receivers hash false m).0 ≡ some ((get_server_chmpxid_by_hash hash m).0 ∷ [])
unfolding routing_receivers
routing_receivers-main hash m v u small idle taken =
    let out = get_servers_by_hash hash by_default m in
    let main = get_server_chmpxid_by_hash hash m in
    let found = get_servers_by_hash_complete hash by_default m v u small idle in
    let chosen =
      first_taken-head (m.ring.store m.self).chmpxid out.3 main.0 out.1 found.2
        (ap is_taken (server_status-get_servers hash by_default m main.0) ∙ taken) in
    rw (found.0, chosen) refl

-- When hash values are served, no servers merge, all servers of the base hash ring are up and not
-- suspended with ids that differ, there are more of them than replicas, the main server of a hash is
-- servicing, not suspended and of a status NOACT / NOTHING or DELETE, and messages are not delivered
-- at random, then messages of the types NORMAL and ROUTING that may go to the own server go to that
-- main server alone.
pub normal-routing :
    (hash normal routing : ℕ) (m : Man)
    → get_c2ctype normal ≡ c2c_normal
    → get_c2ctype routing ≡ c2c_routing
    → is_c2ctype_not_self normal ≡ false
    → is_c2ctype_not_self routing ≡ false
    → Routed m
    → AllUsable by_default m.ring
    → m.replica_count < m.bhash_count
    → m.is_operating ≡ false
    → (is_servicing (server_status ((get_server_chmpxid_by_hash hash m).0) m) ≡ true)
    → (is_taken (server_status ((get_server_chmpxid_by_hash hash m).0) m) ≡ true)
    → (is_suspend (server_status ((get_server_chmpxid_by_hash hash m).0) m) ≡ false)
    → ((get_receiver_chmpxids false hash normal m).0
        ≡ some ((get_server_chmpxid_by_hash hash m).0 ∷ []))
      × ((get_receiver_chmpxids false hash routing m).0
          ≡ some ((get_server_chmpxid_by_hash hash m).0 ∷ []))
normal-routing hash normal routing m one two self_one self_two v u small idle servicing taken sup =
    (
      rw (normal_branch hash normal m one, self_one) (normal_receivers-main hash m servicing sup),
      rw (routing_branch hash routing m two, self_two)
          (routing_receivers-main hash m v u small idle taken),
    )
