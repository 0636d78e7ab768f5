-- ===== src/Ring/Walk.antt =====
-- lib/chmstructure.tcc, chmpxlist_lap: walking over the list from the current node, and what is
-- found out or changed in one pass over all nodes.
pub mod Next
pub mod Around
use chmpx.Base.{
  ℕ, suc, ◌+◌, Bool, true, false, not, ◌&&◌, ◌||◌, ◌==◌, if◌then◌else◌, Option, none, some, List,
  [], ◌∷◌, any, bit_and, not_empty,
}
use chmpx.Status.{
  srvout_down_normal, is_basehash, is_up, is_nosup, is_servicing, is_slave, is_operating,
}
use chmpx.Ring.{Chmpx, Ring, invalid_chmpxid, invalid_hashval, hashtg_both, set_status, set_hash}

-- The nodes that the `next` pointers lead to from a node.
unfoldable pub after : ℕ → List ℕ → List ℕ
after cur [] = []
after cur (a ∷ rest) = if cur == a then rest else after cur rest

-- How a walk over following nodes ends: at a node that will do, back at the start, or at the last.
pub data Stop : Type 0 where
  found : ℕ → Stop
  back ended : Stop

unfoldable pub scan : (ℕ → Bool) → ℕ → List ℕ → Stop
scan ok start [] = ended
scan ok start (a ∷ rest) =
    let further = scan ok start rest in
    if start == a then back else (if ok a then found a else further)

-- The test of ToNext on a node
unfoldable pub is_next : Bool → Bool → Bool → (ℕ → Chmpx) → ℕ → Bool
is_next is_base_hash is_up_servers without_suspend store a =
    let status = (store a).status in
    (not is_base_hash && not is_up_servers)
    || ((not is_base_hash || is_basehash status)
        && (not is_up_servers || is_up status)
        && (not without_suspend || is_nosup status))

-- chmpxlist_lap::ToNext: the result and the new current node. The second walk starts at the first
-- node; it comes back to the start, which is a node of the list, before the list ends.
unfoldable pub to_next : Bool → Bool → Bool → Bool → Bool → ℕ → Ring → Bool × ℕ
to_next is_cycle is_base_hash is_up_servers is_allow_same_server without_suspend cur r =
    let ok = is_next is_base_hash is_up_servers without_suspend r.store in
    elim (scan ok cur (after cur r.servers)) [
      | found a ↦ (true, a)
      | back ↦ (is_allow_same_server, cur)
      | ended ↦
          if is_cycle
          then elim (scan ok cur r.servers) [
            | found a ↦ (true, a)
            | _ ↦ (is_allow_same_server, cur)
          ]
          else (is_allow_same_server, cur)
    ]

-- The test of ToNextUpServicing on a node
unfoldable pub is_usable : Bool → (ℕ → Chmpx) → ℕ → Bool
is_usable without_suspend store a =
    is_servicing (store a).status && (not without_suspend || is_nosup (store a).status)

-- chmpxlist_lap::ToNextUpServicing
unfoldable pub to_next_up_servicing : Bool → Bool → Bool → ℕ → Ring → Bool × ℕ
to_next_up_servicing is_cycle is_allow_same_server without_suspend cur r =
    let ok = is_usable without_suspend r.store in
    let same = is_allow_same_server && ok cur in
    elim (scan ok cur (after cur r.servers)) [
      | found a ↦ (true, a)
      | back ↦ (same, cur)
      | ended ↦
          if is_cycle
          then elim (scan ok cur r.servers) [ found a ↦ (true, a) | _ ↦ (same, cur) ]
          else (same, cur)
    ]

-- chmpxlist_lap::IsOperating from the first node
unfoldable pub ring_is_operating : Ring → Bool
ring_is_operating r = any (λ a. is_operating (r.store a).status) r.servers

-- The second loop of CheckAllServiceOutStatus
unfoldable pub service_out_all : ℕ → List ℕ → Ring → Bool × Ring
unfolding set_status set_hash
service_out_all now [] r = (true, r)
service_out_all now (a ∷ rest) r =
    let (has_status, r1) = set_status now a srvout_down_normal r in
    let (has_hash, r2) =
      if has_status
      then set_hash now a invalid_hashval invalid_hashval hashtg_both r1
      else (false, r1) in
    let (others, r3) = service_out_all now rest r2 in (has_status && has_hash && others, r3)

-- chmpxlist_lap::CheckAllServiceOutStatus
unfoldable pub check_all_service_out_status : ℕ → Ring → Bool × Ring
unfolding service_out_all
check_all_service_out_status now r =
    let is_server_node : ℕ → Bool = λ a. not (is_slave (r.store a).status) in
    if not (not_empty r.servers)
    then (false, r)
    else (if any (λ a. is_server_node a && is_up (r.store a).status) r.servers
        then (true, r)
        else (if not (any is_server_node r.servers)
            then (true, r)
            else service_out_all now r.servers r))

-- chmpxlist_lap::FindByStatus from the first node
unfoldable pub find_by_status_from : ℕ → Bool → (ℕ → Chmpx) → List ℕ → ℕ
find_by_status_from status part_match store [] = invalid_chmpxid
find_by_status_from status part_match store (a ∷ rest) =
    let further = find_by_status_from status part_match store rest in
    if part_match
    then (if status == bit_and (store a).status status then (store a).chmpxid else further)
    else (if status == (store a).status then (store a).chmpxid else further)

-- chmpxlist_lap::GetChmpxIds(list, status_mask, part_match)
unfoldable pub get_chmpxids_by_mask : ℕ → Bool → (ℕ → Chmpx) → List ℕ → List ℕ
get_chmpxids_by_mask status_mask part_match store [] = []
get_chmpxids_by_mask status_mask part_match store (a ∷ rest) =
    let further = get_chmpxids_by_mask status_mask part_match store rest in
    let common = bit_and (store a).status status_mask in
    if (if part_match then 0 == common else not (status_mask == common))
    then further
    else (store a).chmpxid ∷ further
