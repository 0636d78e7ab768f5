-- ===== src/Status/Moves.antt =====
-- What the CHANGE_CHMPXSTS_* macros do to a safe status.
use chmpx.Base.{
  ℕ, ◌^◌, ◌≡◌, refl, ◌∙◌, true, false, not, ◌&&◌, ◌||◌, ◌==◌, ltb, ltb→lt, ==_iff, &&-eq-true,
  eq-false_of_not,
}
use chmpx.Status.{
  mask_suspend, clear, is_safe, is_down, is_up, is_slave, is_srvin, is_server, is_basehash,
  is_pendinghash, is_delete, is_operating, is_suspend, is_nosup,
}
use chmpx.Status.Change.{
  change_to_down, change_to_srvout, change_to_srvin, change_to_suspend, change_to_nosup,
}
use chmpx.Status.Safe.{IsSafe, safe_induction, safe_agree, safe_implies}

-- The five requests that the macros answer.
pub data Request : Type 0 where
  to_down to_srvout to_srvin to_suspend to_nosup : Request

unfoldable pub answer : Request → ℕ → ℕ
unfolding change_to_down change_to_srvout change_to_srvin change_to_suspend change_to_nosup
answer to_down s = change_to_down s
answer to_srvout s = change_to_srvout s
answer to_srvin s = change_to_srvin s
answer to_suspend s = change_to_suspend s
answer to_nosup s = change_to_nosup s

answer_table :
    (r : Request) (s : ℕ) → IsSafe s → (ltb (answer r s) (2 ^ 64) && is_safe (answer r s)) ≡ true
unfolding answer is_safe
answer_table to_down =
    safe_induction (λ t. ltb (answer to_down t) (2 ^ 64) && is_safe (answer to_down t)) refl
answer_table to_srvout =
    safe_induction (λ t. ltb (answer to_srvout t) (2 ^ 64) && is_safe (answer to_srvout t)) refl
answer_table to_srvin =
    safe_induction (λ t. ltb (answer to_srvin t) (2 ^ 64) && is_safe (answer to_srvin t)) refl
answer_table to_suspend =
    safe_induction (λ t. ltb (answer to_suspend t) (2 ^ 64) && is_safe (answer to_suspend t)) refl
answer_table to_nosup =
    safe_induction (λ t. ltb (answer to_nosup t) (2 ^ 64) && is_safe (answer to_nosup t)) refl

-- Every request turns a safe status into a safe status.
pub answer-IsSafe : (r : Request) (s : ℕ) → IsSafe s → IsSafe (answer r s)
answer-IsSafe r s v =
    let h = &&-eq-true _ _ (answer_table r s v) in record { word = ltb→lt _ _ h.0; safe = h.1 }

-- No request moves a server into or out of the base hash ring.
pub answer-basehash : (r : Request) (s : ℕ) → IsSafe s → is_basehash (answer r s) ≡ is_basehash s
unfolding answer is_basehash
answer-basehash to_down = safe_agree (λ t. is_basehash (answer to_down t)) is_basehash refl
answer-basehash to_srvout = safe_agree (λ t. is_basehash (answer to_srvout t)) is_basehash refl
answer-basehash to_srvin = safe_agree (λ t. is_basehash (answer to_srvin t)) is_basehash refl
answer-basehash to_suspend = safe_agree (λ t. is_basehash (answer to_suspend t)) is_basehash refl
answer-basehash to_nosup = safe_agree (λ t. is_basehash (answer to_nosup t)) is_basehash refl

-- The statuses that a history of requests can lead to.
pub data Reach (s : ℕ) : ℕ → Type 0 where
  here : Reach s s
  next : (r : Request) {t : ℕ} → Reach s t → Reach s (answer r t)

-- After any history of requests a safe status is safe, and its server stands in the base hash ring
-- exactly when it stood there at the start.
pub Reach-IsSafe-basehash :
    {s t : ℕ} → IsSafe s → Reach s t → IsSafe t × (is_basehash t ≡ is_basehash s)
Reach-IsSafe-basehash v here = (v, refl)
Reach-IsSafe-basehash v (next r {t} w) =
    let (safe, same) = Reach-IsSafe-basehash v w in
    (answer-IsSafe r t safe, answer-basehash r t safe ∙ same)

-- A server that goes down is down, not suspended, and out of service only if it was being added;
-- the status of a slave does not change.
pub change_to_down_lem :
    (s : ℕ)
    → IsSafe s
    → (is_server s ≡ true → (is_down (change_to_down s) && is_nosup (change_to_down s)) ≡ true)
      × (is_srvin (change_to_down s)
          ≡ (is_srvin s && not (is_pendinghash s && not (is_basehash s))))
      × (is_slave s ≡ true → change_to_down s ≡ s)
unfolding is_server change_to_down is_down is_nosup is_srvin is_pendinghash is_basehash is_slave
change_to_down_lem s v = (
  safe_implies is_server (λ t. is_down (change_to_down t) && is_nosup (change_to_down t)) refl s v,
  safe_agree (λ t. is_srvin (change_to_down t))
      (λ t. is_srvin t && not (is_pendinghash t && not (is_basehash t))) refl s v,
  λ e. (==_iff _ _).0 (safe_implies is_slave (λ t. change_to_down t == t) refl s v e),
)

-- A request to leave the service changes nothing during a merge; otherwise the server leaves the
-- pending hash ring.
pub change_to_srvout_lem :
    (s : ℕ)
    → IsSafe s
    → (is_operating s ≡ true → change_to_srvout s ≡ s)
      × (is_operating s ≡ false → is_pendinghash (change_to_srvout s) ≡ false)
unfolding is_operating change_to_srvout is_pendinghash
change_to_srvout_lem s v = (
  λ e. (==_iff _ _).0 (safe_implies is_operating (λ t. change_to_srvout t == t) refl s v e),
  λ e. eq-false_of_not _ (
      safe_implies (λ t. not (is_operating t)) (λ t. not (is_pendinghash (change_to_srvout t))) refl
        s v (rw e refl)),
)

-- A request to join the service changes nothing while the server is down or a merge runs;
-- otherwise a server that is not suspended joins the pending hash ring.
pub change_to_srvin_lem :
    (s : ℕ)
    → IsSafe s
    → ((is_down s || is_operating s) ≡ true → change_to_srvin s ≡ s)
      × ((is_up s && is_server s && not (is_operating s) && is_nosup s) ≡ true
          → is_pendinghash (change_to_srvin s) ≡ true)
unfolding is_operating change_to_srvin is_pendinghash is_down is_up is_server is_nosup
change_to_srvin_lem s v = (
  λ e.
      (==_iff _ _).0
        (safe_implies (λ t. is_down t || is_operating t) (λ t. change_to_srvin t == t) refl s v e),
  safe_implies (λ t. is_up t && is_server t && not (is_operating t) && is_nosup t)
      (λ t. is_pendinghash (change_to_srvin t)) refl s v,
)

-- The suspend flag is set on servers that are up, and on nothing else; every other field of the
-- status stays as it is.
pub change_to_suspend_lem :
    (s : ℕ)
    → IsSafe s
    → (is_suspend (change_to_suspend s) ≡ (is_up s && is_server s))
      × (is_suspend (change_to_nosup s) ≡ false)
      × (clear (change_to_suspend s) mask_suspend ≡ clear s mask_suspend)
      × (clear (change_to_nosup s) mask_suspend ≡ clear s mask_suspend)
unfolding is_suspend change_to_suspend change_to_nosup is_up is_server clear
change_to_suspend_lem s v = (
  safe_agree (λ t. is_suspend (change_to_suspend t)) (λ t. is_up t && is_server t) refl s v,
  safe_agree (λ t. is_suspend (change_to_nosup t)) (λ t. false) refl s v,
  (==_iff _ _).0 (
      safe_induction (λ t. clear (change_to_suspend t) mask_suspend == clear t mask_suspend) refl s
        v),
  (==_iff _ _).0 (
      safe_induction (λ t. clear (change_to_nosup t) mask_suspend == clear t mask_suspend) refl s
        v),
)

-- The bug: a suspended server that is up and is not being deleted loses its suspend flag when it is
-- asked to leave the service outside of a merge, though the macro has a branch that keeps it.
pub change_to_srvout_drops_suspend :
    (s : ℕ)
    → IsSafe s
    → (is_srvin s && is_up s && not (is_delete s) && not (is_operating s) && is_suspend s) ≡ true
    → is_suspend (change_to_srvout s) ≡ false
unfolding is_srvin is_up is_delete is_operating is_suspend change_to_srvout
change_to_srvout_drops_suspend s v e = eq-false_of_not _ (
    safe_implies
      (λ t. is_srvin t && is_up t && not (is_delete t) && not (is_operating t) && is_suspend t)
      (λ t. not (is_suspend (change_to_srvout t))) refl s v e)
