-- ===== src/Merge/Safe.antt =====
-- The handlers of a merge keep the counts of the shared memory right, whatever the network does.
pub mod Steady
pub mod Shared
pub mod Handlers
pub mod Requests
pub mod Packets
pub mod History
use chmpx.Base.{
  ℕ, ◌≡◌, refl, Bool, true, false, not, ◌&&◌, ◌==◌, if◌then◌else◌, Option, none, some, List, [],
  ◌∷◌, arith, Bool-cases, Option-cases, inl, inr,
}
use chmpx.Exec.{Exec, give, refuse, look, attempt, write, demand, ◌>>=◌, ◌>>◌}
use chmpx.Exec.Keeps.{
  Keeps, Keeps-give, Keeps-attempt, Keeps-if, Keeps-write, Keeps-look, Keeps-refuse, Keeps-bind,
  keeps_rules,
}
use chmpx.Ring.{Chmpx, Ring, invalid_chmpxid, touch, hashtg_base, hashtg_pending}
use chmpx.IdMap.{is_server_mode}
use chmpx.Man.SetStatus.{set_self_status, set_server_status}
use chmpx.Man.{Man, man_update_hash, get_servers_by_hash}
use chmpx.Merge.{
  Packet, Answer, Node, World, on_man, self_chmpx, get_chmpx_svr, get_chmpx_svrs,
  set_status_of_self, set_status_of, set_base_hash_of_self, set_base_hash_of, update_pending_hash,
  touch_self, man_set_self_hash, man_set_server_hash, say, deny, or_deny,
}
use chmpx.Merge.Safe.Shared.{
  Consistent, touch-Consistent, self_hash-Consistent, server_hash-Consistent,
  update_hash-Consistent, set_self_status-Consistent, set_server_status-Consistent,
}

abbrev pub Ready : Node → Type 0
Ready n = Consistent n.man

-- A write that leaves the shared memory alone
pub Keeps-aside : (f : Node → Node) → ((n : Node) → (f n).man ≡ n.man) → Keeps Ready (write f)
Keeps-aside f same = Keeps-write f (λ n h. moved (f n).man n.man (same n) h)
  where
    moved : (m m' : Man) → m ≡ m' → Consistent m' → Consistent m
    moved m m' e h = rw e h

pub Keeps-on_man :
    (f : Man → Bool × Man)
    → ((m : Man) → Consistent m → Consistent (f m).1)
    → Keeps Ready (on_man f)
unfolding on_man ◌>>=◌
Keeps-on_man f k = record {
  run =
      λ n h. elim (Bool-cases (f n.man).0) [ inl e ↦ rw e (k n.man h) | inr e ↦ rw e (k n.man h) ];
}

Keeps-look_man :
    (f : Node → Man → Bool × Man)
    → ((n : Node) (m : Man) → Consistent m → Consistent (f n m).1)
    → Keeps Ready (look (λ n. n) >>= λ n. on_man (f n))
Keeps-look_man f k =
    Keeps-bind (look (λ n. n)) (λ n. on_man (f n)) (Keeps-look (λ n. n))
      (λ n. Keeps-on_man (f n) (k n))

module _ (w : World) where
  pub set_status_of_self-Ready : (status : ℕ) → Keeps Ready (set_status_of_self w status)
  unfolding set_status_of_self
  set_status_of_self-Ready status =
      Keeps-look_man (λ n. set_self_status w.now status n.has_clients)
        (λ n m. set_self_status-Consistent w.now status n.has_clients m)

  pub set_status_of-Ready : (id status : ℕ) → Keeps Ready (set_status_of w id status)
  unfolding set_status_of
  set_status_of-Ready id status =
      Keeps-look_man (λ n. set_server_status w.now id status n.has_clients)
        (λ n m. set_server_status-Consistent w.now id status n.has_clients m)

  pub set_base_hash_of_self-Ready : (hash : ℕ) → Keeps Ready (set_base_hash_of_self w hash)
  unfolding set_base_hash_of_self
  set_base_hash_of_self-Ready hash =
      Keeps-on_man (man_set_self_hash w.now hash 0 hashtg_base)
        (self_hash-Consistent w.now hash 0 hashtg_base)

  pub set_base_hash_of-Ready : (id hash : ℕ) → Keeps Ready (set_base_hash_of w id hash)
  unfolding set_base_hash_of
  set_base_hash_of-Ready id hash =
      Keeps-on_man (man_set_server_hash w.now id hash 0 hashtg_base)
        (server_hash-Consistent w.now id hash 0 hashtg_base)

  pub update_pending_hash-Ready : Keeps Ready (update_pending_hash w)
  unfolding update_pending_hash
  update_pending_hash-Ready =
      Keeps-look_man
        (λ n. man_update_hash (is_server_mode (self_chmpx n)) w.now hashtg_pending true true)
        (λ n m.
          update_hash-Consistent (is_server_mode (self_chmpx n)) w.now hashtg_pending true true m)

  pub touch_self-Ready : Keeps Ready (touch_self w)
  unfolding touch_self
  touch_self-Ready = Keeps-on_man _ (λ m c. elim (Bool-cases (m.ring.store m.self).has_name) [
    | inl e ↦ rw e (touch-Consistent w.now m.self m c)
    | inr e ↦ rw e c
  ])

pub say-Ready : (asked : Bool) (a : Answer) → Keeps Ready (say asked a)
unfolding say
say-Ready true a = Keeps-aside (λ n. record n { answer = a ∷ [] }) (λ n. refl)
say-Ready false a = Keeps-aside (λ n. n) (λ n. refl)

pub deny-Ready : {A : Type 0} (asked : Bool) (a : Answer) → Keeps Ready (deny {A = A} asked a)
unfolding deny
deny-Ready {A} asked a = search (keeps_rules, say-Ready)

pub get_chmpx_svr-Ready : (id : ℕ) → Keeps Ready (get_chmpx_svr id)
unfolding get_chmpx_svr
get_chmpx_svr-Ready id = search (keeps_rules)

pub get_chmpx_svrs-Ready : Keeps Ready get_chmpx_svrs
unfolding get_chmpx_svrs
get_chmpx_svrs-Ready = search (keeps_rules)

pub or_deny-Ready :
    (call : Exec Node (Unit {0})) (asked : Bool) (a : Answer)
    → Keeps Ready call
    → Keeps Ready (or_deny call asked a)
unfolding or_deny
or_deny-Ready call asked a k = search (keeps_rules, deny-Ready)

pub ruleset ready_rules = (
  keeps_rules, say-Ready, deny-Ready, or_deny-Ready, get_chmpx_svr-Ready, get_chmpx_svrs-Ready,
  set_status_of_self-Ready, set_status_of-Ready, set_base_hash_of_self-Ready,
  set_base_hash_of-Ready, update_pending_hash-Ready, touch_self-Ready,
)
