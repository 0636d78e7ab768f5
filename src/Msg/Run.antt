-- ===== src/Msg/Run.antt =====
-- Histories of the pool: any sequence of calls from the state in which all messages are free.
use chmpx.Base.{
  ℕ, zero, suc, ◌+◌, ◌^◌, ◌<◌, ◌≡◌, refl, sym, subst, ap, Bool, not, ◌||◌, ltb, leb, ==_iff,
  if◌then◌else◌, inl, inr, List, [], ◌∷◌, length, arith,
}
use native.Mathlib.Nat.{mod-eq_of_lt}
use chmpx.Msg.{Pool, invalid_msgid, in_range, assign_msg, free_msg, set_mq_flag_status}
use chmpx.Msg.Occ.{occ}
use chmpx.Msg.Invariant.{Inv, every}
use chmpx.Msg.Assign.{assign_msg_lem}
use chmpx.Msg.Free.{free_msg_lem}
use chmpx.Msg.Activate.{set_mq_flag_status-Inv}

-- The ids that mqmsgheadarr_lap::FillMsgId gives to an array
unfoldable pub fill_msgid : ℕ → ℕ → List ℕ
fill_msgid base_msgid zero = []
fill_msgid base_msgid (suc count) = base_msgid ∷ fill_msgid (suc base_msgid) count

-- The pool at the start.
abbrev pub fresh : ℕ → ℕ → Pool
fresh base_msgid max_mqueue = record {
  heads = λ x. record { flag = 0; pid = 0 };
  base_msgid = base_msgid;
  max_mqueue = max_mqueue;
  chmpx_msgs = [];
  chmpx_msg_count = 0;
  activated_msgs = [];
  activated_msg_count = 0;
  assigned_msgs = [];
  assigned_msg_count = 0;
  free_msgs = fill_msgid base_msgid max_mqueue;
  free_msg_count = max_mqueue;
  last_msgid_chmpx = invalid_msgid;
  last_msgid_activated = invalid_msgid;
  last_msgid_assigned = invalid_msgid;
}

occ-fill_msgid :
    (x base n : ℕ)
    → occ x (fill_msgid base n) ≡ (if not (ltb x base || leb (base + n) x) then 1 else 0)
unfolding fill_msgid
occ-fill_msgid x base zero = ground arith
occ-fill_msgid x base (suc n) = ground (arith, occ-fill_msgid x (suc base) n, ==_iff base x)

length-fill_msgid : (base n : ℕ) → length (fill_msgid base n) ≡ n
unfolding fill_msgid
length-fill_msgid base zero = refl
length-fill_msgid base (suc n) = ap suc (length-fill_msgid (suc base) n)

fresh-Inv : (base n : ℕ) → base + n < 2 ^ 64 → Inv (fresh base n)
unfolding in_range
fresh-Inv base n h = record {
  flags = every _ (λ x g. refl_flag g) (λ x g. refl_flag g) (λ x g. refl_flag g) (λ x g. refl);
  counts = every _ refl refl refl (sym (length-fill_msgid base n));
  shared = λ x. rw (mod-eq_of_lt h) (omega (arith, occ-fill_msgid x base n));
}
  where
    refl_flag : {f : ℕ} → 0 < 0 → 0 ≡ f
    refl_flag g = absurd (omega arith)

-- A call, with the pid of its process.
pub data Call : Type 0 where
  assign : (pid : ℕ) (is_chmpx is_activated : Bool) → Call
  release_call : (msgid : ℕ) → Call
  set_status : (pid msgid : ℕ) (is_assigned is_activated : Bool) → Call

abbrev pub call : Call → Pool → Pool
call (assign pid chm act) p = (assign_msg pid chm act p).1
call (release_call msgid) p = (free_msg msgid p).1
call (set_status pid msgid a act) p = (set_mq_flag_status pid msgid a act p).1

abbrev pub run : List Call → Pool → Pool
run [] p = p
run (c ∷ cs) p = run cs (call c p)

call-Inv : (c : Call) (p : Pool) → Inv p → Inv (call c p)
call-Inv (assign pid chm act) p v = elim (assign_msg_lem pid chm act p v) [
  | inl a ↦ a.invariant
  | inr (_, e) ↦ subst (λ out. Inv out.1) (sym e) v
]
call-Inv (release_call msgid) p v = (free_msg_lem msgid p v).0
call-Inv (set_status pid msgid a act) p v = set_mq_flag_status-Inv pid msgid a act p v

run-Inv : (cs : List Call) (p : Pool) → Inv p → Inv (run cs p)
run-Inv [] p v = v
run-Inv (c ∷ cs) p v = run-Inv cs (call c p) (call-Inv c p v)

-- From a pool whose messages are all free and whose ids fit a word, every sequence of calls keeps
-- the lists sharing out the ids: no message is lost and none stands in two lists.
pub run-fresh-Inv :
    (base_msgid max_mqueue : ℕ) (cs : List Call)
    → base_msgid + max_mqueue < 2 ^ 64
    → Inv (run cs (fresh base_msgid max_mqueue))
run-fresh-Inv base n cs h = run-Inv cs (fresh base n) (fresh-Inv base n h)
