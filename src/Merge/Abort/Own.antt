-- ===== src/Merge/Abort/Own.antt =====
-- The own status after a handler has changed it: SetSelfStatus sets the suspend flag anew.
use chmpx.Base.{
  ℕ, ◌≡◌, refl, ap, ◌∙◌, Bool, true, false, not, ◌&&◌, ==_iff, all, arith, &&-eq-true, some,
}
use chmpx.Exec.Leads.{Leads, Leads-Keeps, Leads-bind, Leads-look}
use chmpx.Status.{safe_statuses}
use chmpx.Status.Change.{change_suspend_flag}
use chmpx.Status.Safe.{IsSafe, both, safe_induction}
use chmpx.Ring.{set_status, hashtg_pending}
use chmpx.IdMap.{is_server_mode}
use chmpx.Man.{Man, man_update_hash}
use chmpx.Man.SetStatus.{recount, set_self_status}
use chmpx.Merge.{Node, World, on_man, self_chmpx, set_status_of_self, update_pending_hash}
use chmpx.Merge.Leads.{on_man-Leads}
use chmpx.Merge.Send.{next_ring_chmpxid}
use chmpx.Merge.Safe.Steady.{update_hash-Steady}
use chmpx.Merge.Settle.Quiet.{tell_status-quiet}
use chmpx.Merge.Abort.{change_self_status}

set_self_status-own :
    (now status : ℕ) (is_client_join : Bool) (m : Man)
    → is_server_mode (m.ring.store m.self) ≡ true
    → (set_self_status now status is_client_join m).0 ≡ true
    → let out = (set_self_status now status is_client_join m).1 in
      (out.ring.store out.self).status ≡ change_suspend_flag status (not is_client_join)
unfolding set_self_status set_status recount
set_self_status-own now status join m server done = ground (arith, ==_iff m.self m.self)

-- The own node has a status.
abbrev Has : ℕ → Man → Type 0
Has s m = (m.ring.store m.self).status ≡ s

man_update_hash-own :
    (is_server : Bool) (now type s : ℕ) (m : Man)
    → Has s m
    → Has s (man_update_hash is_server now type true true m).1
unfolding man_update_hash
man_update_hash-own server now type s m h = (update_hash-Steady now type m.ring).status m.self ∙ h

on_man-keeps :
    (f : Man → Bool × Man) (P : Man → Type 0)
    → ((m : Man) → P m → P (f m).1)
    → Leads (λ n. P n.man) (λ n. P n.man) (on_man f)
on_man-keeps f P k = record { run = λ n h. on_man-Leads f P n (λ done. k n.man h) }

-- The own node's mode is the server mode, and client processes have joined or not.
abbrev Serves : Bool → Node → Type 0
Serves joined n = (is_server_mode (self_chmpx n) ≡ true) × (n.has_clients ≡ joined)

module _ (w : World) (status : ℕ) (joined : Bool) where
  set_status_of_self-Leads :
      Leads
        (Serves joined)
        (λ n. Has (change_suspend_flag status (not joined)) n.man)
        (set_status_of_self w status)
  unfolding set_status_of_self
  set_status_of_self-Leads =
      Leads-look (λ n. on_man (set_self_status w.now status n.has_clients))
        (λ n h. record {
          run = λ t k.
              on_man-Leads (set_self_status w.now status n.has_clients)
                (Has (change_suspend_flag status (not joined))) t
                (λ done.
                  set_self_status-own w.now status n.has_clients t.man k.0 done
                  ∙ ap (λ b. change_suspend_flag status (not b)) h.1);
        })

  update_pending_hash-Leads :
      (s : ℕ) → Leads (λ n. Has s n.man) (λ n. Has s n.man) (update_pending_hash w)
  unfolding update_pending_hash
  update_pending_hash-Leads s = Leads-look _ (λ n h.
      on_man-keeps _ (Has s)
        (man_update_hash-own (is_server_mode (self_chmpx n)) w.now hashtg_pending s))

  change_self_status-Leads :
      Leads
        (Serves joined)
        (λ n. Has (change_suspend_flag status (not joined)) n.man)
        (change_self_status w status)
  unfolding change_self_status
  change_self_status-Leads =
      let s = change_suspend_flag status (not joined) in
      Leads-bind (set_status_of_self w status) _ set_status_of_self-Leads (λ u.
        Leads-bind (update_pending_hash w) _ (update_pending_hash-Leads s) (λ v.
          Leads-look _ (λ n h.
            Leads-Keeps _ (tell_status-quiet (Has s) w (next_ring_chmpxid w n) (self_chmpx n)))))

-- What a handler has stored is the chosen status with a new suspend flag.
pub change_self_status-own :
    (w : World) (status : ℕ) (n : Node)
    → is_server_mode (self_chmpx n) ≡ true
    → (change_self_status w status n).0 ≡ some tt
    → (self_chmpx (change_self_status w status n).1).status
      ≡ change_suspend_flag status (not n.has_clients)
change_self_status-own w status n server done =
    (change_self_status-Leads w status n.has_clients).run n (server, refl) tt done

-- A test of the stored status for both values of the flag
abbrev pub stored : (ℕ → ℕ) → (ℕ → ℕ → Bool → Bool) → ℕ → Bool
stored f p s =
    p s (change_suspend_flag (f s) true) true && p s (change_suspend_flag (f s) false) false

pub stored_table :
    (f : ℕ → ℕ) (p : ℕ → ℕ → Bool → Bool)
    → all (both (stored f p)) safe_statuses ≡ true
    → (s : ℕ) (off : Bool) → IsSafe s
    → p s (change_suspend_flag (f s) off) off ≡ true
stored_table f p h s off v = pick off (&&-eq-true _ _ (safe_induction (stored f p) h s v))
  where
    pick :
        (off : Bool)
        → (p s (change_suspend_flag (f s) true) true ≡ true)
          × (p s (change_suspend_flag (f s) false) false ≡ true)
        → p s (change_suspend_flag (f s) off) off ≡ true
    pick true k = k.0
    pick false k = k.1
