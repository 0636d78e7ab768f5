-- ===== src/Man/Select.antt =====
-- lib/chmstructure.tcc, chmpxman_lap: the next server on the RING, and servers in turn (the code
-- calls this random).
pub mod RingOrder
pub mod Turn
mod Tests
use chmpx.Base.{
  ℕ, Bool, true, false, not, ◌&&◌, ◌==◌, if◌then◌else◌, Option, none, some, List, [], ◌∷◌,
}
use chmpx.Ring.{Chmpx, Ring, invalid_chmpxid}
use chmpx.Ring.Walk.{to_next, to_next_up_servicing}
use chmpx.IdMap.{is_server_mode, search_chmpxid}
use chmpx.Man.{Man}

-- The search of an id from the first node of the server list, which gives the mode
unfoldable pub find_server : ℕ → Man → Option ℕ
unfolding search_chmpxid
find_server chmpxid m = elim m.ring.servers [
  | [] ↦ none
  | first ∷ rest ↦
      search_chmpxid m.ring.store (is_server_mode (m.ring.store first)) chmpxid m.chmpxid_map
]

-- The id of the node that a walk of GetNextRingChmpxId leads to
abbrev pub next_id : ℕ → Man → ℕ
next_id cur m =
    let (done, a) = to_next true false true false false cur m.ring in
    if done then (m.ring.store a).chmpxid else invalid_chmpxid

-- chmpxman_lap::GetNextRingChmpxId
unfoldable pub get_next_ring_chmpxid : ℕ → Man → ℕ
get_next_ring_chmpxid chmpxid m =
    if not (is_server_mode (m.ring.store m.self))
    then invalid_chmpxid
    else (if chmpxid == invalid_chmpxid
        then next_id m.self m
        else elim (find_server chmpxid m) [ none ↦ invalid_chmpxid | some a ↦ next_id a m ])

-- The node from which GetRandomServerChmpxId takes the last step; a step that fails stays.
unfoldable pub turn_start : Bool → ℕ → Man → ℕ
turn_start without_suspend first m =
    if m.last_chmpxid == invalid_chmpxid then first else elim (find_server m.last_chmpxid m) [
      | none ↦ first
      | some a ↦ (to_next_up_servicing true true without_suspend a m.ring).1
    ]

-- chmpxman_lap::GetRandomServerChmpxId
unfoldable pub get_random_server_chmpxid : Bool → Man → ℕ × Man
unfolding turn_start
get_random_server_chmpxid without_suspend m =
    if m.bhash_count == 0 then (invalid_chmpxid, m) else elim m.ring.servers [
      | [] ↦ (invalid_chmpxid, m)
      | first ∷ rest ↦
          (let (done, a) =
              to_next_up_servicing true true without_suspend (turn_start without_suspend first m)
                m.ring in
            let id = (m.ring.store a).chmpxid in
            if done then (id, record m { last_chmpxid = id }) else (invalid_chmpxid, m))
    ]
