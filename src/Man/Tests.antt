-- ===== src/Man/Tests.antt =====
-- Three servers in service, and the theorems on where a hash value goes.
use chmpx.Base.{
  ℕ, ◌+◌, ◌%◌, ◌≤◌, ◌<◌, ◌≡◌, refl, true, false, some, [], ◌∷◌, length, get_elem?, arith, not_empty,
}
use chmpx.Status.{is_basehash, is_down, is_suspend}
use chmpx.Ring.{hashtg_both, assign_base, assign_pending, base_hash_count, update_hash}
use chmpx.Ring.Members.{Same, distinct}
use chmpx.Man.Sample.{start}
use chmpx.Man.{
  Man, Filter, passes, visit, server_at, contains, get_server_chmpxid_by_hash, get_servers_by_hash,
  man_update_hash,
}
use chmpx.Man.Route.{
  base_servers, IsConsistent, Routed, man_update_hash-Routed, get_server_chmpxid_by_hash_lem,
}
use chmpx.Man.Complete.{AllUsable}
use chmpx.Man.Servers.{get_servers_by_hash_sound, get_servers_by_hash_complete}

start-IsConsistent : IsConsistent start.ring
unfolding is_basehash
start-IsConsistent = record { named = refl; single = refl; room = omega arith; small = omega arith }

start_count : start.bhash_count ≡ base_hash_count start.ring
unfolding base_hash_count is_basehash
start_count = refl

abbrev served : Man
served = (man_update_hash true 7 hashtg_both false false start).1

man_update_hash-Routed_example :
    ((man_update_hash true 7 hashtg_both false false start).0 ≡ not_empty start.ring.servers)
    × Routed served
    × Same start.ring served.ring
man_update_hash-Routed_example =
    man_update_hash-Routed true 7 false false start refl refl start-IsConsistent start_count

served-Routed : Routed served
served-Routed =
    (man_update_hash-Routed true 7 false false start refl refl start-IsConsistent start_count).1

served_count : served.bhash_count ≡ 3
unfolding man_update_hash
served_count = refl

get_server_chmpxid_by_hash_lem_example :
    (a : ℕ) × (get_elem? (base_servers served.ring) (8 % length (base_servers served.ring))
      ≡ some a)
    × (get_server_chmpxid_by_hash 8 served ≡ (
      (served.ring.store a).chmpxid,
      record served { last_chmpxid = (served.ring.store a).chmpxid },
    ))
get_server_chmpxid_by_hash_lem_example =
    get_server_chmpxid_by_hash_lem 8 served served-Routed (omega (arith, served_count))

-- Servers that are down are left out, and the pending ring is not asked.
abbrev plain : Filter
plain = record { with_pending = false; without_down = true; without_suspend = false }

served-AllUsable : AllUsable plain served.ring
unfolding man_update_hash update_hash assign_base assign_pending passes is_basehash is_down
    is_suspend
served-AllUsable = record { usable = refl; differ = refl }

get_servers_by_hash_sound_example :
    let out = get_servers_by_hash 8 plain served in
    (out.0 ≡ not_empty out.1)
    × (distinct out.1 ≡ true)
    × (distinct out.2 ≡ true)
    × (length out.1 ≤ 2)
    × ((x : ℕ)
        → contains x out.1 ≡ true
        → (t : ℕ) × (a : ℕ) × (get_elem? (base_servers served.ring) t ≡ some a)
          × ((served.ring.store a).chmpxid ≡ x)
          × (passes true plain (served.ring.store a) ≡ true))
unfolding man_update_hash
get_servers_by_hash_sound_example =
    get_servers_by_hash_sound 8 plain served served-Routed (omega (arith, served_count)) refl

get_servers_by_hash_complete_example :
    let out = get_servers_by_hash 8 plain served in
    (out.0 ≡ true)
    × (length out.1 ≡ 2)
    × (get_elem? out.1 0 ≡ some ((get_server_chmpxid_by_hash 8 served).0))
    × ((k : ℕ)
        → k < 2
        → (a : ℕ) × (get_elem?
              (base_servers served.ring)
              ((8 % served.bhash_count + k) % served.bhash_count)
            ≡ some a)
          × (get_elem? out.1 k ≡ some ((served.ring.store a).chmpxid)))
unfolding man_update_hash
get_servers_by_hash_complete_example =
    get_servers_by_hash_complete 8 plain served served-Routed served-AllUsable
      (omega (arith, served_count)) refl

-- The run itself: the value 8 goes to the server with number 2, and its replica to number 0.
served_run : (get_servers_by_hash 8 plain served).1 ≡ 104 ∷ 101 ∷ []
unfolding man_update_hash update_hash assign_base assign_pending get_servers_by_hash passes
    is_basehash is_down is_suspend visit server_at
served_run = refl
