-- ===== src/Merge/Settle/Ends.antt =====
-- The loop over the servers of a status ends before its fuel does.
use chmpx.Base.{
  ℕ, zero, suc, ◌<◌, ◌≡◌, refl, sym, subst, Bool, true, false, ◌==◌, Bool-cases, inl, inr, Option,
  none, some, length, arith,
}
use chmpx.Exec.{Exec, resume, ◌>>=◌, ◌>>◌}
use chmpx.Exec.Leads.{Leads, Leads-Keeps}
use chmpx.Status.{srvout_down_normal}
use chmpx.Status.Change.{change_suspend_flag}
use chmpx.Ring.{invalid_chmpxid}
use chmpx.Man.{Man}
use chmpx.Man.SetStatus.{set_server_status}
use chmpx.Merge.{Node, World, get_chmpx_svr, set_status_of}
use chmpx.Merge.Leads.{on_man-Leads}
use chmpx.Merge.Send.{tell_status, next_ring_chmpxid}
use chmpx.Merge.Settle.{id_by_status, settle, settle_all}
use chmpx.Merge.Settle.Moved.{having, having-length}
use chmpx.Merge.Settle.Quiet.{tell_status-quiet, get_chmpx_svr-quiet}
use chmpx.Merge.Settle.Kin.{Findable}
use chmpx.Merge.Settle.Step.{set_server_status-Fewer}

-- The answer that tells that the fuel was not enough
abbrev pub is_spent : Option Bool → Bool
is_spent none = false
is_spent (some true) = false
is_spent (some false) = true

-- A handler that does not run out of fuel from the states with a property
record Ends {State : Type 0} (Inv : State → Type 0) (call : Exec State Bool) : Type 0 where
  run : (before : State) → Inv before → is_spent (call before).0 ≡ false

module _ {State Out : Type 0} {Then : State → Type 0} where
  resumed :
      (r : Option Out) (rest : Out → Exec State Bool) (after : State)
      → ((a : Out) → r ≡ some a → Then after)
      → ((a : Out) → Ends Then (rest a))
      → is_spent (resume r rest after).0 ≡ false
  resumed none rest after leads ends = refl
  resumed (some a) rest after leads ends = (ends a).run after (leads a refl)

module _ {State Out : Type 0} {Inv Then : State → Type 0} where
  Ends-bind :
      (call : Exec State Out) (rest : Out → Exec State Bool)
      → Leads Inv Then call
      → ((a : Out) → Ends Then (rest a))
      → Ends Inv (call >>= rest)
  unfolding ◌>>=◌
  Ends-bind call rest leads ends = record {
    run =
        λ before holds. resumed (call before).0 rest (call before).1 (leads.run before holds) ends;
  }

module _ (old status : ℕ) where
  -- The old status is another one than the new one, with and without the suspend flag, and than the
  -- one that servers get when none is up.
  pub record Other : Type 0 where
    pub new : (old == status) ≡ false
    pub flagged : (off : Bool) → (old == change_suspend_flag status off) ≡ false
    pub out : (old == srvout_down_normal) ≡ false

-- Enough fuel for what is left
abbrev Left : ℕ → ℕ → Man → Type 0
Left old fuel m = Findable m × (having old m.ring.store m.ring.servers < fuel)

module _ (w : World) (old status next : ℕ) (other : Other old status) where
  set_status_of-Leads :
      (fuel id : ℕ)
      → (id == invalid_chmpxid) ≡ false
      → Leads
          (λ (n : Node). Left old (suc fuel) n.man × (id_by_status old n.man ≡ id))
          (λ (n : Node). Left old fuel n.man)
          (set_status_of w id status)
  unfolding set_status_of ◌>>=◌
  set_status_of-Leads fuel id valid = record {
    run = λ n h a done.
        on_man-Leads (set_server_status w.now id status n.has_clients) (Left old fuel) n
          (subst
            (λ i.
              (set_server_status w.now i status n.has_clients n.man).0 ≡ true
              → Left old fuel (set_server_status w.now i status n.has_clients n.man).1)
            h.1
            (λ stored.
              let x =
                set_server_status-Fewer old status w.now n.has_clients n.man h.0.0 other.new
                  other.flagged other.out
                  (subst (λ i. (i == invalid_chmpxid) ≡ false) (sym h.1) valid) stored in
              (x.findable, omega (arith, x.fewer, h.0.1))))
          a done;
  }

  round :
      (fuel id : ℕ)
      → (id == invalid_chmpxid) ≡ false
      → Ends (λ (n : Node). Left old fuel n.man) (settle w fuel old status next)
      → Ends
          (λ (n : Node). Left old (suc fuel) n.man × (id_by_status old n.man ≡ id))
          (do
            set_status_of w id status
            server ← get_chmpx_svr id
            tell_status w next server
            settle w fuel old status next)
  round fuel id valid ends =
      Ends-bind (set_status_of w id status) _ (set_status_of-Leads fuel id valid) (λ u.
        Ends-bind (get_chmpx_svr id) _
          (Leads-Keeps (get_chmpx_svr id) (get_chmpx_svr-quiet (Left old fuel) w id))
          (λ server.
            Ends-bind (tell_status w next server) _
              (Leads-Keeps (tell_status w next server)
                (tell_status-quiet (Left old fuel) w next server))
              (λ v. ends)))

  settle-Ends :
      (fuel : ℕ) → Ends (λ (n : Node). Left old fuel n.man) (settle w fuel old status next)
  unfolding settle ◌>>=◌
  settle-Ends zero = record { run = λ n h. absurd (omega (arith, h.1)) }
  settle-Ends (suc fuel) = record {
    run = λ n h. elim (Bool-cases (id_by_status old n.man == invalid_chmpxid)) [
      | inl e ↦ rw e refl
      | inr e ↦ rw e ((round fuel (id_by_status old n.man) e (settle-Ends fuel)).run n (h, refl))
    ];
  }

-- When the search of an id finds every server and the own node stands in the list, the loop in which
-- the server that sent a packet changes the status of the servers that are down ends by itself: as
-- many rounds as the list has nodes, and one more, are enough, whatever the network does. The old
-- status must differ from the new one and from the one that servers get when none is up.
pub settle_all-ends :
    (w : World) (old status : ℕ) (n : Node)
    → Other old status
    → Findable n.man
    → is_spent (settle_all w old status n).0 ≡ false
unfolding settle_all ◌>>=◌
settle_all-ends w old status n other f =
    (settle-Ends w old status (next_ring_chmpxid w n) other (suc (length n.man.ring.servers))).run n
      (f, omega (arith, having-length old n.man.ring.store n.man.ring.servers))
