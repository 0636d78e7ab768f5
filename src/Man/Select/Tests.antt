-- ===== src/Man/Select/Tests.antt =====
-- The next server and the servers in turn, for the list of four servers and for one of two.
use chmpx.Base.{ℕ, ◌<◌, ◌≡◌, refl, false, some, [], ◌∷◌, arith, length, inr}
use chmpx.Status.{is_up, is_servicing, is_nosup}
use chmpx.Ring.Walk.{is_usable}
use chmpx.Ring.Walk.Around.{up_servers}
use chmpx.IdMap.{bucket, save_chmpx_id_map, search_chmpxid, search_chain}
use chmpx.Man.{Man}
use chmpx.Man.Sample.{start}
use chmpx.Man.Select.{find_server, get_random_server_chmpxid}
use chmpx.Man.Select.RingOrder.{IsRing, hops, hops-reach}
use chmpx.Man.Select.Turn.{
  IsListed, Turn, get_random_server_chmpxid_lem, get_random_server_chmpxid_repeats,
}

start-IsRing : IsRing start
unfolding is_up find_server search_chmpxid search_chain save_chmpx_id_map bucket
start-IsRing = record { own = refl; single = refl; many = omega arith; known = refl }

hops-reach_example :
    ((k : ℕ) × (k < length (up_servers start.ring)) × (hops k 102 start ≡ 101))
    × (hops (length (up_servers start.ring)) 102 start ≡ 102)
unfolding is_up
hops-reach_example = hops-reach start 1 2 0 1 start-IsRing refl refl

-- Two servers only, and the table empty: no id is found, and the first server starts.
abbrev pair : Man
pair = record start {
  ring = record start.ring { servers = 1 ∷ 2 ∷ [] };
  chmpxid_map = λ k. [];
  bhash_count = 2;
}

pair-IsListed : IsListed pair
unfolding find_server search_chmpxid search_chain
pair-IsListed = record { single = refl; listed = λ id a e. ground arith }

get_random_server_chmpxid_lem_example : Turn false pair (get_random_server_chmpxid false pair)
get_random_server_chmpxid_lem_example =
    get_random_server_chmpxid_lem false pair pair-IsListed (λ e. omega arith)

-- The same with the ids in the table, after server 102.
abbrev after_second : Man
after_second = record pair { chmpxid_map = start.chmpxid_map; last_chmpxid = 102 }

get_random_server_chmpxid_repeats_example :
    (c : ℕ) × (find_server 102 after_second ≡ some c)
    × (get_random_server_chmpxid false after_second ≡ (
      (after_second.ring.store c).chmpxid,
      record after_second { last_chmpxid = (after_second.ring.store c).chmpxid },
    ))
unfolding is_usable is_servicing is_nosup find_server search_chmpxid search_chain save_chmpx_id_map
    bucket
get_random_server_chmpxid_repeats_example =
    get_random_server_chmpxid_repeats false after_second 1 2 (refl, λ e. omega arith) refl refl
      (λ e. omega arith) (λ e. omega arith) (inr refl)
