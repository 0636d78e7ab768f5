-- ===== src/Merge/Settle/Step.antt =====
-- SetServerStatus for the server that was found by its status: one server less has that status.
use chmpx.Base.{
  ℕ, ◌<◌, ◌≡◌, refl, sym, ap, ◌∙◌, subst, Bool, true, false, not, ◌&&◌, ◌==◌, if◌then◌else◌, Option,
  none, some, arith, ==_iff,
}
use chmpx.Status.{srvout_down_normal, is_down, is_up}
use chmpx.Status.Change.{change_suspend_flag}
use chmpx.Ring.{Ring, invalid_chmpxid, set_status}
use chmpx.Ring.Walk.{check_all_service_out_status}
use chmpx.IdMap.{is_in, is_server_mode}
use chmpx.Man.{Man}
use chmpx.Man.Select.{find_server}
use chmpx.Man.Select.RingOrder.{finds}
use chmpx.Man.SetStatus.{recount, store_server_status, set_server_status}
use chmpx.Merge.Settle.{id_by_status}
use chmpx.Merge.Settle.Kin.{Findable, all-is_in, found_node, Kin, Findable-Kin}
use chmpx.Merge.Settle.Moved.{
  Moved-refl, Moved-trans, set_status-Moved, check_all-Moved, having, having-less, either,
}

set_status-gone :
    (old now a status : ℕ) (r : Ring)
    → (old == status) ≡ false
    → (set_status now a status r).0 ≡ true
    → (old == ((set_status now a status r).1.store a).status) ≡ false
unfolding set_status
set_status-gone old now a status r h e = ground (arith, ==_iff a a)

contra : (b c : Bool) → (b ≡ true → c ≡ true) → c ≡ false → b ≡ false
contra true c f e = sym (f refl) ∙ e
contra false c f e = refl

both_done :
    (stored checked : Bool) (m : Man) (r : Ring)
    → (let out : Bool × Man =
          if not stored
          then (false, m)
          else (if not checked then (false, record m { ring = r }) else (true, recount r m)) in
        out.0)
      ≡ true
    → (stored ≡ true) × (checked ≡ true)
unfolding recount
both_done true true m r e = (refl, refl)
both_done true false m r e = ground arith
both_done false checked m r e = ground arith

store_step :
    (old status now a : ℕ) (need : Bool) (m : Man)
    → (old == status) ≡ false
    → (old == srvout_down_normal) ≡ false
    → (store_server_status now a status need m).0 ≡ true
    → Kin old m (store_server_status now a status need m).1
      × ((old == ((store_server_status now a status need m).1.ring.store a).status) ≡ false)
unfolding store_server_status recount
store_step old status now a need m h k e =
    let one = set_status now a status m.ring in
    let two =
      if need && is_down status then check_all_service_out_status now one.1 else (true, one.1) in
    let done = both_done one.0 two.0 m two.1 e in
    let later =
      either (need && is_down status) old one.1 (check_all_service_out_status now one.1)
        (true, one.1) (check_all-Moved old now one.1 k) (Moved-refl old one.1) in
    rw (done.0, done.1)
      (
        record {
          moved = Moved-trans (set_status-Moved old now a status m.ring h) later;
          self = refl;
          map = refl;
        },
        contra _ _ (later.none_new a) (set_status-gone old now a status m.ring h done.0),
      )

-- SetServerStatus has succeeded: the search still finds every node, and one node less has the old
-- status.
pub record Fewer (old : ℕ) (m m' : Man) : Type 0 where
  pub findable : Findable m'
  pub fewer : having old m'.ring.store m'.ring.servers < having old m.ring.store m.ring.servers

Kin-Fewer :
    (old b : ℕ) (m m' : Man)
    → Findable m
    → is_in b m.ring.servers ≡ true
    → (old == (m.ring.store b).status) ≡ true
    → Kin old m m' × ((old == (m'.ring.store b).status) ≡ false)
    → Fewer old m m'
Kin-Fewer old b m m' f here has k = record {
  findable = Findable-Kin old m m' k.0 f;
  fewer =
      subst (λ l. having old m'.ring.store l < having old m.ring.store m.ring.servers)
        (sym k.0.moved.servers)
        (having-less old m.ring m'.ring b m.ring.servers k.0.moved here has k.1);
}

the_node :
    (o : Option ℕ) (b : ℕ)
    → (let out : Bool = elim o [ none ↦ false | some c ↦ c == b ] in out) ≡ true
    → o ≡ some b
the_node none b h = cc
the_node (some c) b h = (let same : c ≡ b = ground arith in ap some same)

-- A node that the search of its own id finds is the one that any search of this id finds.
found_by_id :
    (m : Man) (b id : ℕ)
    → finds m b ≡ true
    → (m.ring.store b).chmpxid ≡ id
    → find_server id m ≡ some b
found_by_id m b id h e =
    subst (λ i. find_server i m ≡ some b) e (the_node (find_server (m.ring.store b).chmpxid m) b h)

module _ (old : ℕ) (m : Man) where
  branch :
      (own : Bool) (s t : Bool × Man)
      → (own ≡ true → s.0 ≡ true → Fewer old m s.1)
      → (own ≡ false → t.0 ≡ true → Fewer old m t.1)
      → (if own then s else t).0 ≡ true
      → Fewer old m (if own then s else t).1
  branch true s t f g e = f refl e
  branch false s t f g e = g refl e

  guarded :
      (stop : Bool) (t : Bool × Man)
      → (t.0 ≡ true → Fewer old m t.1)
      → (let out : Bool × Man = if stop then (false, m) else t in out.0) ≡ true
      → (let out : Bool × Man = if stop then (false, m) else t in Fewer old m out.1)
  guarded true t f e = absurd (ground arith)
  guarded false t f e = f e

  at_node :
      (o : Option ℕ) (b : ℕ) (t : ℕ → Bool × Man)
      → o ≡ some b
      → ((t b).0 ≡ true → Fewer old m (t b).1)
      → (let out : Bool × Man = elim o [ none ↦ (false, m) | some a ↦ t a ] in out.0) ≡ true
      → (let out : Bool × Man = elim o [ none ↦ (false, m) | some a ↦ t a ] in Fewer old m out.1)
  at_node none b t e f h = absurd (ground arith)
  at_node (some a) b t e f h =
      (let same : a ≡ b = ground arith in
        subst (λ x. (t x).0 ≡ true → Fewer old m (t x).1) (sym same) f h)

pub set_server_status-Fewer :
    (old status now : ℕ) (join : Bool) (m : Man)
    → Findable m
    → (old == status) ≡ false
    → ((off : Bool) → (old == change_suspend_flag status off) ≡ false)
    → (old == srvout_down_normal) ≡ false
    → (id_by_status old m == invalid_chmpxid) ≡ false
    → (set_server_status now (id_by_status old m) status join m).0 ≡ true
    → Fewer old m (set_server_status now (id_by_status old m) status join m).1
unfolding set_server_status
set_server_status-Fewer old status now join m f h h' k valid done =
    let id = id_by_status old m in
    let (b, here, has, named) = found_node old m.ring.store m.ring.servers valid in
    let at_b = found_by_id m b id (all-is_in (finds m) b m.ring.servers f.known here) named in
    let own = is_server_mode (m.ring.store m.self) && (m.ring.store m.self).chmpxid == id in
    let flagged = change_suspend_flag status (not join) in
    branch old m own
      (if is_down status && m.has_selfsock
        then (false, m)
        else (if is_up status && not m.has_selfsock
            then (false, m)
            else store_server_status now m.self flagged false m))
      (elim (find_server id m) [
        | none ↦ (false, m)
        | some a ↦ store_server_status now a status true m
      ])
      (λ e. guarded old m (is_down status && m.has_selfsock) _ (
        guarded old m (is_up status && not m.has_selfsock)
          (store_server_status now m.self flagged false m)
          (λ d.
            let at_self =
              found_by_id m m.self id (all-is_in (finds m) m.self m.ring.servers f.known f.own)
                (ground arith) in
            let same : b ≡ m.self = ground (at_b, at_self, arith) in
            Kin-Fewer old b m _ f here has (
              subst
                (λ a.
                  Kin old m (store_server_status now m.self flagged false m).1
                  × ((old
                        == ((store_server_status now m.self flagged false m).1.ring.store a).status)
                      ≡ false))
                (sym same) (store_step old flagged now m.self false m (h' (not join)) k d)))))
      (λ e.
        at_node old m (find_server id m) b (λ a. store_server_status now a status true m) at_b
          (λ d. Kin-Fewer old b m _ f here has (store_step old status now b true m h k d)))
      done
