-- ===== src/Merge/Abort/Stored.antt =====
-- The status that MergeAbort and DoSuspend leave in the shared memory for their own server.
use chmpx.Base.{
  ℕ, ◌≡◌, refl, sym, subst, Bool, true, false, not, ◌&&◌, ◌⇒◌, ◌⇔◌, ⇔-eq, ◌==◌, eq-false_of_not,
  some,
}
use chmpx.Status.{
  mask_suspend, clear, is_safe, is_up, is_server, is_basehash, is_delete, is_operating, is_suspend,
}
use chmpx.Status.Change.{change_suspend_flag}
use chmpx.Status.Safe.{IsSafe}
use chmpx.IdMap.{is_server_mode}
use chmpx.Merge.{Node, World, self_chmpx}
use chmpx.Merge.Status.{status_in_suspend}
use chmpx.Merge.Status.Laws.{fits, fits-IsSafe}
use chmpx.Merge.Abort.{change_self_status}
use chmpx.Merge.Abort.Own.{change_self_status-own, stored_table}

pub record Aborted (s t : ℕ) : Type 0 where
  pub safe : IsSafe t
  pub base : is_basehash t ≡ is_basehash s
  pub idle : is_operating t ≡ false
  pub kept :
      ((is_up s && not (is_operating s) && not (is_delete s))
        ⇒ (clear t mask_suspend == clear s mask_suspend))
      ≡ true

pub record Suspended (joined : Bool) (s t : ℕ) : Type 0 where
  pub safe : IsSafe t
  pub base : is_basehash t ≡ is_basehash s
  pub flag : is_suspend t ≡ (is_up s && is_server s && not joined)
  pub idle : (is_up t && is_operating t) ≡ false

suspended :
    (s : ℕ) (joined : Bool)
    → IsSafe s
    → Suspended joined s (change_suspend_flag (status_in_suspend s) (not joined))
unfolding status_in_suspend change_suspend_flag is_operating is_basehash is_safe is_up is_server
    is_suspend
suspended s joined v = record {
  safe = fits-IsSafe _ (stored_table status_in_suspend (λ s t off. fits t) refl s (not joined) v);
  base = ⇔-eq _ _ (
      stored_table status_in_suspend (λ s t off. is_basehash t ⇔ is_basehash s) refl s (not joined)
        v);
  flag = ⇔-eq _ _ (
      stored_table status_in_suspend (λ s t off. is_suspend t ⇔ (is_up s && is_server s && off))
        refl s (not joined) v);
  idle = eq-false_of_not _ (
      stored_table status_in_suspend (λ s t off. not (is_up t && is_operating t)) refl s
        (not joined) v);
}

-- When the own server, in the server mode and with a safe status, has succeeded in changing its
-- status to the one that DoSuspend chooses, with the hash values and the notice that follow, then the
-- status that is stored for it is safe and leaves the server in or out of the base hash ring as
-- before; it has the suspend flag exactly if the old status is a server's that is up and no client
-- process has joined; and if it is up, it does not take part in a merge.
pub status_in_suspend-change_self_status :
    (w : World) (n : Node)
    → is_server_mode (self_chmpx n) ≡ true
    → IsSafe (self_chmpx n).status
    → (change_self_status w (status_in_suspend (self_chmpx n).status) n).0 ≡ some tt
    → Suspended n.has_clients
        (self_chmpx n).status
        (self_chmpx (change_self_status w (status_in_suspend (self_chmpx n).status) n).1).status
status_in_suspend-change_self_status w n server v done =
    let s = (self_chmpx n).status in
    subst (Suspended n.has_clients s)
      (sym (change_self_status-own w (status_in_suspend s) n server done))
      (suspended s n.has_clients v)
