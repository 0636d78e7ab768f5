-- ===== src/Deliver/Tests.antt =====
-- Messages to three servers in service, while a fourth waits to be added.
use chmpx.Base.{
  ℕ, ◌≡◌, refl, sym, subst, ◌==◌, Bool-cases, true, false, inl, inr, none, some, Option, List, [],
  ◌∷◌, arith,
}
use chmpx.Status.{
  srvin_up_normal, srvin_up_addpending, srvout_down_normal, is_safe, is_basehash, is_down,
  is_suspend, is_servicing,
}
use chmpx.Status.Safe.{IsSafe}
use chmpx.Ring.{Chmpx, hashtg_both, assign_base, assign_pending, base_hash_count, update_hash}
use chmpx.Ring.Members.{Same}
use chmpx.Man.Sample.{node, start}
use chmpx.Man.{
  Man, passes, visit, server_at, contains, man_update_hash, get_servers_by_hash,
  get_server_chmpxid_by_hash,
}
use chmpx.Man.Route.{IsConsistent, Routed, man_update_hash-Routed}
use chmpx.Man.Complete.{AllUsable}
use chmpx.Man.Select.{find_server}
use chmpx.IdMap.{search_chmpxid, search_chain, save_chmpx_id_map, bucket}
use chmpx.Merge.{server_status}
use chmpx.Deliver.{
  by_default, is_taken, is_left_out, erase, rbroadcast_receivers, get_c2ctype, is_c2ctype_not_self,
  get_receiver_chmpxids,
}
use chmpx.Deliver.Routing.{
  only_first, routing-rbroadcast, Receiver, rbroadcast_receivers-Receiver, normal-routing,
}

start-IsConsistent : IsConsistent start.ring
unfolding is_basehash
start-IsConsistent = record { named = refl; single = refl; room = omega arith; small = omega arith }

start_count : start.bhash_count ≡ base_hash_count start.ring
unfolding base_hash_count is_basehash
start_count = refl

abbrev served : Man
served = (man_update_hash true 7 hashtg_both false false start).1

updated : Routed served × Same start.ring served.ring
updated =
    let done =
      man_update_hash-Routed true 7 false false start refl refl start-IsConsistent start_count in
    (done.1, done.2)

normal-IsSafe : IsSafe srvin_up_normal
unfolding is_safe
normal-IsSafe = record { word = omega arith; safe = refl }

addpending-IsSafe : IsSafe srvin_up_addpending
unfolding is_safe
addpending-IsSafe = record { word = omega arith; safe = refl }

down-IsSafe : IsSafe srvout_down_normal
unfolding is_safe
down-IsSafe = record { word = omega arith; safe = refl }

node-IsSafe : (a : ℕ) → IsSafe (node a).status
node-IsSafe a = elim (Bool-cases (a == 3)) [
  | inl e ↦ rw e addpending-IsSafe
  | inr e ↦ rw e normal-IsSafe
]

zero-IsSafe : IsSafe 0
unfolding is_safe
zero-IsSafe = record { word = omega arith; safe = refl }

looked_up :
    (servers : List ℕ) (o : Option ℕ) (store : ℕ → Chmpx)
    → ((a : ℕ) → IsSafe (store a).status)
    → (let status : ℕ = elim servers [
      | [] ↦ 0
      | first ∷ rest ↦ elim o [ none ↦ srvout_down_normal | some a ↦ (store a).status ]
    ] in
        IsSafe status)
looked_up [] o store safe = zero-IsSafe
looked_up (first ∷ rest) none store safe = down-IsSafe
looked_up (first ∷ rest) (some a) store safe = safe a

status-IsSafe :
    (m : Man) → ((a : ℕ) → IsSafe (m.ring.store a).status) → (x : ℕ) → IsSafe (server_status x m)
unfolding server_status
status-IsSafe m safe x = looked_up m.ring.servers (find_server x m) m.ring.store safe

served-IsSafe : (x : ℕ) → IsSafe (server_status x served)
served-IsSafe = status-IsSafe served (λ a. subst IsSafe (sym (updated.1.status a)) (node-IsSafe a))

routing-rbroadcast_example :
    (get_receiver_chmpxids false 8 18 served).0
    ≡ only_first (get_receiver_chmpxids false 8 20 served).0
unfolding get_c2ctype is_c2ctype_not_self
routing-rbroadcast_example = routing-rbroadcast 8 18 20 served refl refl refl served-IsSafe

served_run : (rbroadcast_receivers 8 false served).0 ≡ some (104 ∷ 101 ∷ [])
unfolding man_update_hash update_hash assign_base assign_pending passes is_basehash is_down
    is_suspend visit server_at get_servers_by_hash get_server_chmpxid_by_hash server_status
    find_server search_chmpxid search_chain save_chmpx_id_map bucket is_servicing is_taken
    is_left_out erase rbroadcast_receivers contains
served_run = refl

served_count : served.bhash_count ≡ 3
unfolding man_update_hash
served_count = refl

idle : served.is_operating ≡ false
unfolding man_update_hash
idle = refl

rbroadcast_receivers-Receiver_example : Receiver false served 101
unfolding contains
rbroadcast_receivers-Receiver_example =
    rbroadcast_receivers-Receiver 8 false served (104 ∷ 101 ∷ []) 101 updated.0
      (omega (arith, served_count)) idle served_run refl

all_usable : AllUsable by_default served.ring
unfolding man_update_hash update_hash assign_base assign_pending passes is_basehash is_down
    is_suspend visit server_at get_servers_by_hash get_server_chmpxid_by_hash server_status
    find_server search_chmpxid search_chain save_chmpx_id_map bucket is_servicing is_taken
    is_left_out erase rbroadcast_receivers contains
all_usable = record { usable = refl; differ = refl }

main_servicing :
    is_servicing (server_status ((get_server_chmpxid_by_hash 8 served).0) served) ≡ true
unfolding man_update_hash update_hash assign_base assign_pending passes is_basehash is_down
    is_suspend visit server_at get_servers_by_hash get_server_chmpxid_by_hash server_status
    find_server search_chmpxid search_chain save_chmpx_id_map bucket is_servicing is_taken
    is_left_out erase rbroadcast_receivers contains
main_servicing = refl

main_taken : is_taken (server_status ((get_server_chmpxid_by_hash 8 served).0) served) ≡ true
unfolding man_update_hash update_hash assign_base assign_pending passes is_basehash is_down
    is_suspend visit server_at get_servers_by_hash get_server_chmpxid_by_hash server_status
    find_server search_chmpxid search_chain save_chmpx_id_map bucket is_servicing is_taken
    is_left_out erase rbroadcast_receivers contains
main_taken = refl

main_awake : is_suspend (server_status ((get_server_chmpxid_by_hash 8 served).0) served) ≡ false
unfolding man_update_hash update_hash assign_base assign_pending passes is_basehash is_down
    is_suspend visit server_at get_servers_by_hash get_server_chmpxid_by_hash server_status
    find_server search_chmpxid search_chain save_chmpx_id_map bucket is_servicing is_taken
    is_left_out erase rbroadcast_receivers contains
main_awake = refl

normal-routing_example :
    ((get_receiver_chmpxids false 8 1 served).0
      ≡ some ((get_server_chmpxid_by_hash 8 served).0 ∷ []))
    × ((get_receiver_chmpxids false 8 2 served).0
        ≡ some ((get_server_chmpxid_by_hash 8 served).0 ∷ []))
unfolding man_update_hash get_c2ctype is_c2ctype_not_self
normal-routing_example =
    normal-routing 8 1 2 served refl refl refl refl updated.0 all_usable
      (omega (arith, served_count)) idle main_servicing main_taken main_awake
