-- ===== src/Merge/Down/Target.antt =====
-- What ChangeDownSvrStatusByMerge does at the end of a merge to a server that is down.
use chmpx.Base.{
  ℕ, ◌≡◌, refl, sym, subst, Option-cases, ◌∙◌, Bool, true, false, ◌&&◌, ◌||◌, ◌==◌, ==_iff,
  if◌then◌else◌, Bool-cases, inl, inr, ◌⊎◌, some, List, [], ◌∷◌, arith,
}
use chmpx.Exec.Leads.{Leads, Leads-bind, Leads-look}
use chmpx.Status.{
  mask_suspend, clear, srvout_down_normal, srvin_down_delpending, srvin_down_deleted, is_basehash,
}
use chmpx.Status.Safe.{IsSafe, safe_implies}
use chmpx.Ring.{Ring, invalid_hashval, hashtg_base, hashtg_both, set_status, set_hash}
use chmpx.Ring.Walk.{service_out_all, check_all_service_out_status}
use chmpx.IdMap.{is_server_mode}
use chmpx.Man.{Man}
use chmpx.Man.Select.{find_server}
use chmpx.Man.SetStatus.{recount, store_server_status, set_server_status}
use chmpx.Merge.{
  Node, World, set_status_of, set_base_hash_of, man_set_self_hash, man_set_server_hash,
}
use chmpx.Merge.Leads.{on_man-Leads}
use chmpx.Merge.Safe.Steady.{set_hash-Steady}
use chmpx.Merge.Status.{DownMerge, start, complete, abort, is_down_target, down_status}
use chmpx.Merge.Down.{change_down_svr}

-- A merge ends, in one way or the other.
abbrev pub is_end : DownMerge → Bool
is_end start = false
is_end complete = true
is_end abort = true

-- The node at an address is down and out of service.
abbrev IsOut : ℕ → Ring → Type 0
IsOut b r = (r.store b).status ≡ srvout_down_normal

set_status-IsOut :
    (now a b : ℕ) (r : Ring) → IsOut b r → IsOut b (set_status now a srvout_down_normal r).1
unfolding set_status
set_status-IsOut now a b r h = ground (arith, ==_iff b a)

either-IsOut :
    (c : Bool) (b : ℕ) (s t : Bool × Ring)
    → IsOut b s.1
    → IsOut b t.1
    → IsOut b (if c then s else t).1
either-IsOut true b s t h k = h
either-IsOut false b s t h k = k

service_out_all-IsOut :
    (now b : ℕ) (nodes : List ℕ) (r : Ring) → IsOut b r → IsOut b (service_out_all now nodes r).1
unfolding service_out_all
service_out_all-IsOut now b [] r h = h
service_out_all-IsOut now b (a ∷ rest) r h =
    let one = set_status now a srvout_down_normal r in
    let two = set_hash now a invalid_hashval invalid_hashval hashtg_both one.1 in
    let out = if one.0 then two else (false, one.1) in
    let first = set_status-IsOut now a b r h in
    service_out_all-IsOut now b rest out.1 (
      either-IsOut one.0 b two (false, one.1)
        ((set_hash-Steady now a invalid_hashval invalid_hashval hashtg_both one.1).status b ∙ first)
        first)

check_all-IsOut :
    (now b : ℕ) (r : Ring) → IsOut b r → IsOut b (check_all_service_out_status now r).1
unfolding check_all_service_out_status
check_all-IsOut now b r h = ground (arith, service_out_all-IsOut now b r.servers r h)

set_status-stored :
    (now b : ℕ) (r : Ring)
    → (set_status now b srvout_down_normal r).0 ≡ true
    → IsOut b (set_status now b srvout_down_normal r).1
unfolding set_status
set_status-stored now b r h = ground (arith, ==_iff b b)

store_server_status-IsOut :
    (now b : ℕ) (need : Bool) (m : Man)
    → (store_server_status now b srvout_down_normal need m).0 ≡ true
    → IsOut b (store_server_status now b srvout_down_normal need m).1.ring
unfolding store_server_status recount
store_server_status-IsOut now b need m done =
    let r1 = (set_status now b srvout_down_normal m.ring).1 in
    ground (arith, set_status-stored now b m.ring, check_all-IsOut now b r1)

-- Another node than the own one is found under an id.
pub record Another (id b : ℕ) (m : Man) : Type 0 where
  pub found : find_server id m ≡ some b
  pub other : (is_server_mode (m.ring.store m.self) && (m.ring.store m.self).chmpxid == id) ≡ false

set_server_status-IsOut :
    (now id b : ℕ) (is_client_join : Bool) (m : Man)
    → Another id b m
    → (set_server_status now id srvout_down_normal is_client_join m).0 ≡ true
    → IsOut b (set_server_status now id srvout_down_normal is_client_join m).1.ring
unfolding set_server_status
set_server_status-IsOut now id b join m o =
    rw (o.other, o.found) (store_server_status-IsOut now b true m)

set_hash-IsOut :
    (now id b base pending type : ℕ) (m : Man)
    → IsOut b m.ring
    → IsOut b (man_set_server_hash now id base pending type m).1.ring
unfolding man_set_server_hash man_set_self_hash
set_hash-IsOut now id b base pending type m h =
    let kept : (a : ℕ) → IsOut b (set_hash now a base pending type m.ring).1 =
      λ a. (set_hash-Steady now a base pending type m.ring).status b ∙ h in
    elim (Bool-cases
      (is_server_mode (m.ring.store m.self) && (m.ring.store m.self).chmpxid == id)) [
        | inl e ↦ rw e (kept m.self)
        | inr e ↦ elim (Option-cases (find_server id m)) [
          | inl k ↦ rw (e, k) h
          | inr (a, k) ↦ rw (e, k) (kept a)
        ]
      ]

module _ (w : World) (id b : ℕ) where
  set_status_of-IsOut :
      Leads
        (λ (n : Node). Another id b n.man)
        (λ n. IsOut b n.man.ring)
        (set_status_of w id srvout_down_normal)
  unfolding set_status_of
  set_status_of-IsOut = Leads-look _ (λ n h. record {
    run = λ t o.
        on_man-Leads (set_server_status w.now id srvout_down_normal n.has_clients)
          (λ m. IsOut b m.ring) t (set_server_status-IsOut w.now id b n.has_clients t.man o);
  })

  set_base_hash_of-IsOut :
      (hash : ℕ)
      → Leads
          (λ (n : Node). IsOut b n.man.ring)
          (λ n. IsOut b n.man.ring)
          (set_base_hash_of w id hash)
  unfolding set_base_hash_of
  set_base_hash_of-IsOut hash = record {
    run = λ t h.
        on_man-Leads (man_set_server_hash w.now id hash 0 hashtg_base) (λ m. IsOut b m.ring) t
          (λ done. set_hash-IsOut w.now id b hash 0 hashtg_base t.man h);
  }

  change_down_svr-IsOut :
      (type : DownMerge)
      → (is_end type ≡ true)
      → Leads
          (λ (n : Node). Another id b n.man)
          (λ n. IsOut b n.man.ring)
          (change_down_svr w type id)
  unfolding change_down_svr down_status
  change_down_svr-IsOut start h = cc
  change_down_svr-IsOut complete h =
      Leads-bind (set_status_of w id srvout_down_normal) _ set_status_of-IsOut
        (λ u. set_base_hash_of-IsOut invalid_hashval)
  change_down_svr-IsOut abort h = set_status_of-IsOut

pub record TakenOut (s t : ℕ) : Type 0 where
  pub waited :
      (clear s mask_suspend ≡ srvin_down_delpending) ⊎ (clear s mask_suspend ≡ srvin_down_deleted)
  pub before : is_basehash s ≡ true
  pub status : t ≡ srvout_down_normal
  pub after : is_basehash t ≡ false

abbrev waits : ℕ → Bool
waits s =
    clear s mask_suspend == srvin_down_delpending || clear s mask_suspend == srvin_down_deleted

which :
    (s : ℕ)
    → waits s ≡ true
    → (clear s mask_suspend ≡ srvin_down_delpending) ⊎ (clear s mask_suspend ≡ srvin_down_deleted)
which s h = elim (Bool-cases (clear s mask_suspend == srvin_down_delpending)) [
  | inl e ↦ inl ((==_iff _ _).0 e)
  | inr e ↦
      (let k : (clear s mask_suspend == srvin_down_deleted) ≡ true = rw e at h in
        inr ((==_iff _ _).0 k))
]

is_down_target-TakenOut :
    (type : DownMerge) (s : ℕ)
    → is_end type ≡ true
    → IsSafe s
    → is_down_target type s ≡ true
    → TakenOut s srvout_down_normal
unfolding is_down_target is_basehash clear
is_down_target-TakenOut start s e v h = cc
is_down_target-TakenOut complete s e v h = record {
  waited = which s (safe_implies (is_down_target complete) waits refl s v h);
  before = safe_implies (is_down_target complete) is_basehash refl s v h;
  status = refl;
  after = refl;
}
is_down_target-TakenOut abort s e v h = record {
  waited = which s (safe_implies (is_down_target abort) waits refl s v h);
  before = safe_implies (is_down_target abort) is_basehash refl s v h;
  status = refl;
  after = refl;
}

-- When ChangeDownSvrStatusByMerge, at the completion of a merge or when it is aborted, has succeeded
-- in changing another server than the own one, which the search of its id finds with a safe status
-- that the test for this change accepts, then that status was SRVIN_DOWN_DELPENDING or
-- SRVIN_DOWN_DELETED but for the suspend flag, in the base hash ring, and the server's status is now
-- SRVOUT_DOWN_NORMAL, out of it. The bug: this is so also when the merge is aborted, where the comment
-- in the code promises SERVICEIN / DOWN / NOACT / NOTHING.
pub change_down_svr_lem :
    (w : World) (type : DownMerge) (id b : ℕ) (n : Node)
    → is_end type ≡ true
    → Another id b n.man
    → IsSafe (n.man.ring.store b).status
    → is_down_target type (n.man.ring.store b).status ≡ true
    → (change_down_svr w type id n).0 ≡ some tt
    → TakenOut (n.man.ring.store b).status ((change_down_svr w type id n).1.man.ring.store b).status
change_down_svr_lem w type id b n e o v h done =
    subst (TakenOut (n.man.ring.store b).status)
      (sym ((change_down_svr-IsOut w id b type e).run n o tt done))
      (is_down_target-TakenOut type (n.man.ring.store b).status e v h)
