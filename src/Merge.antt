-- ===== src/Merge.antt =====
-- lib/chmeventsock.cc, ChmEventSock: how a server joins and leaves the service, and how the servers
-- of the RING merge their data. The handlers work on the shared memory and on members of the object;
-- what they send is kept in the order of sending. The object and the shared memory are initialized,
-- and memory can be allocated.
pub mod Status
pub mod Send
pub mod Leads
pub mod Sample
pub mod Down
pub mod Complete
pub mod Abort
pub mod Start
pub mod Service
pub mod Receive
pub mod Settle
pub mod Calls
pub mod Safe
use chmpx.Base.{
  ℕ, Bool, true, false, not, ◌&&◌, ◌||◌, ◌==◌, if◌then◌else◌, Option, none, some, List, [], ◌∷◌,
  ◌++◌, not_empty,
}
use chmpx.Status.{srvout_down_normal}
use chmpx.Exec.{Exec, give, refuse, or_refuse, look, attempt, write, demand, ◌>>=◌, ◌>>◌}
use chmpx.Ring.{
  Chmpx, Ring, invalid_chmpxid, invalid_hashval, hashtg_base, hashtg_pending, set_hash, touch,
  pending_hash_count,
}
use chmpx.IdMap.{is_server_mode}
use chmpx.Man.{Man, man_update_hash}
use chmpx.Man.Select.{find_server}
use chmpx.Man.SetStatus.{set_server_status, set_self_status}

-- The packets that these handlers send, each with the id of the chmpx it goes to
pub data Packet : Type 0 where
  status_change : ℕ → Chmpx → Packet
  status_confirm : ℕ → List Chmpx → Packet
  merge_start merge_abort merge_complete merge_suspend merge_nosuspend : ℕ → Packet

-- CTL_RES_*: the answers to the control port
pub data Answer : Type 0 where
  success success_noserver success_status_notice success_already_serviceout : Answer
  error_command_on_server error_operating error_status_not_allowed error_change_status : Answer
  error_status_notice error_communication error_some_server_status error_merge_start : Answer
  error_merge_complete error_merge_abort error_merge_auto error_could_not_suspend : Answer
  error_could_not_nosuspend int_error_notgetchmpx : Answer

-- What the handlers read and write: the shared memory (`man`, the ids of the list of slaves, whether
-- client processes have joined, the merge modes), members of ChmEventSock, what was sent so far, and
-- the lines of the answer. `mergeidmap` holds the keys of the map; all values are the initial one.
pub record Node : Type 0 where
  pub man : Man
  pub slaves : List ℕ
  pub has_clients : Bool
  pub is_auto_merge : Bool
  pub is_auto_merge_suspend : Bool
  pub is_do_merge : Bool
  pub is_server_mode : Bool
  pub startup_servicein : Bool
  pub is_merge_done_processing : Bool
  pub is_run_merge : Bool
  pub mergeidmap : List ℕ
  pub sent : List Packet
  pub answer : List Answer

-- What the handlers ask of the network, the threads, the clock, the client processes and the
-- configuration file: whether Send and ConnectServer succeed, whether the merge thread exists and
-- wakes up, the time, whether MergeAbortUpdateData succeeds, and what ReloadConfiguration does.
pub record World : Type 0 where
  pub delivers : Packet → Bool
  pub connects : ℕ → Bool
  pub has_thread : Bool
  pub wakes_thread : Bool
  pub now : ℕ
  pub tells_clients : Bool
  pub reload : Man → Bool × Man

-- A call on the shared memory that returns bool
unfoldable pub on_man : (Man → Bool × Man) → Exec Node (Unit {0})
on_man f = do out ← look (λ n. f n.man); write (λ n. record n { man = out.1 }); demand out.0

-- ChmIMData::IsAutoMerge
abbrev pub auto_merges : Node → Bool
auto_merges n = not n.is_auto_merge_suspend && n.is_auto_merge

-- The own node: GetSelfChmpxId, GetSelfStatus, GetSelfHash and GetSelfChmpxSvr read its members.
abbrev pub self_chmpx : Node → Chmpx
self_chmpx n = n.man.ring.store n.man.self

-- GetServerStatus
unfoldable pub server_status : ℕ → Man → ℕ
server_status chmpxid m = elim m.ring.servers [
  | [] ↦ 0
  | first ∷ rest ↦ elim (find_server chmpxid m) [
    | none ↦ srvout_down_normal
    | some a ↦ (m.ring.store a).status
  ]
]

-- GetChmpxSvr
unfoldable pub get_chmpx_svr : ℕ → Exec Node Chmpx
get_chmpx_svr chmpxid = do
  n ← look (λ n. n)
  demand (not (chmpxid == invalid_chmpxid))
  a ← or_refuse (find_server chmpxid n.man)
  give (n.man.ring.store a)

-- GetChmpxSvrs, a copy of all nodes of the server list
abbrev copies : (ℕ → Chmpx) → List ℕ → List Chmpx
copies store [] = []
copies store (a ∷ rest) = store a ∷ copies store rest

unfoldable pub get_chmpx_svrs : Exec Node (List Chmpx)
get_chmpx_svrs = do
  n ← look (λ n. n)
  demand (not_empty n.man.ring.servers)
  give (copies n.man.ring.store n.man.ring.servers)

-- chmpxman_lap::SetSelfHash and SetServerHash
unfoldable pub man_set_self_hash : ℕ → ℕ → ℕ → ℕ → Man → Bool × Man
man_set_self_hash now base pending type m =
    let (done, r) = set_hash now m.self base pending type m.ring in (done, record m { ring = r })

unfoldable pub man_set_server_hash : ℕ → ℕ → ℕ → ℕ → ℕ → Man → Bool × Man
unfolding man_set_self_hash
man_set_server_hash now chmpxid base pending type m =
    if is_server_mode (m.ring.store m.self) && (m.ring.store m.self).chmpxid == chmpxid
    then man_set_self_hash now base pending type m
    else elim (find_server chmpxid m) [
      | none ↦ (false, m)
      | some a ↦
          (let (done, r) = set_hash now a base pending type m.ring in (done, record m { ring = r }))
    ]

module _ (w : World) where
  -- The operations of ChmIMData that change the shared memory
  unfoldable pub set_status_of_self : ℕ → Exec Node (Unit {0})
  set_status_of_self status = do
    n ← look (λ n. n)
    on_man (set_self_status w.now status n.has_clients)

  unfoldable pub set_status_of : ℕ → ℕ → Exec Node (Unit {0})
  set_status_of chmpxid status = do
    n ← look (λ n. n)
    on_man (set_server_status w.now chmpxid status n.has_clients)

  unfoldable pub set_base_hash_of_self : ℕ → Exec Node (Unit {0})
  set_base_hash_of_self hash = on_man (man_set_self_hash w.now hash 0 hashtg_base)

  unfoldable pub set_base_hash_of : ℕ → ℕ → Exec Node (Unit {0})
  set_base_hash_of chmpxid hash = on_man (man_set_server_hash w.now chmpxid hash 0 hashtg_base)

  -- UpdateHash(HASHTG_PENDING), while servers operate and in slave mode too
  unfoldable pub update_pending_hash : Exec Node (Unit {0})
  update_pending_hash = do
    n ← look (λ n. n)
    on_man (man_update_hash (is_server_mode (self_chmpx n)) w.now hashtg_pending true true)

  -- UpdateSelfLastStatusTime
  unfoldable pub touch_self : Exec Node (Unit {0})
  touch_self = on_man (λ m.
      if (m.ring.store m.self).has_name
      then (true, record m { ring = touch w.now m.self m.ring })
      else (false, m))

-- An answer, if the caller has asked for one
unfoldable pub say : Bool → Answer → Exec Node (Unit {0})
say asked a = write (λ n. if asked then record n { answer = a ∷ [] } else n)

-- An answer and `return false`
unfoldable pub deny : {A : Type 0} → Bool → Answer → Exec Node A
deny asked a = do say asked a; refuse

-- `if(!call){ answer; return false; }`
unfoldable pub or_deny : Exec Node (Unit {0}) → Bool → Answer → Exec Node (Unit {0})
or_deny call asked a = do done ← attempt call; if done then give tt else deny asked a
