-- ===== src/Exec/Leads.antt =====
-- Handlers that lead from a state with one property to a state with another, if they do not refuse.
use chmpx.Base.{◌≡◌, refl, Option, none, some}
use chmpx.Exec.{Exec, resume, look, ◌>>=◌}
use chmpx.Exec.Keeps.{Keeps}

pub record Leads {State Out : Type 0} (Inv Then : State → Type 0) (call : Exec State Out)
    : Type 0 where
  pub run :
      (before : State) → Inv before → (a : Out) → (call before).0 ≡ some a → Then (call before).1

module _ {State Out : Type 0} {Inv : State → Type 0} where
  pub Leads-Keeps : (call : Exec State Out) → Keeps Inv call → Leads Inv Inv call
  Leads-Keeps call keeps = record { run = λ before holds a e. keeps.run before holds }

module _ {State Out Last : Type 0} {Mid Then : State → Type 0} where
  resume-Leads :
      (r : Option Out) (rest : Out → Exec State Last) (after : State)
      → ((a : Out) → r ≡ some a → Mid after)
      → ((a : Out) → Leads Mid Then (rest a))
      → (b : Last) → (resume r rest after).0 ≡ some b
      → Then (resume r rest after).1
  resume-Leads none rest after leads then b e = cc
  resume-Leads (some a) rest after leads then b e = (then a).run after (leads a refl) b e

  pub Leads-bind :
      {Inv : State → Type 0} (call : Exec State Out) (rest : Out → Exec State Last)
      → Leads Inv Mid call
      → ((a : Out) → Leads Mid Then (rest a))
      → Leads Inv Then (call >>= rest)
  unfolding ◌>>=◌
  Leads-bind call rest leads then = record {
    run = λ before holds.
        resume-Leads (call before).0 rest (call before).1 (leads.run before holds) then;
  }

module _ {State Last : Type 0} {Inv Then : State → Type 0} where
  -- What the state is may be used where it is looked at.
  pub Leads-look :
      (rest : State → Exec State Last)
      → ((before : State) → Inv before → Leads Inv Then (rest before))
      → Leads Inv Then (look (λ before. before) >>= rest)
  unfolding ◌>>=◌
  Leads-look rest leads = record { run = λ before holds. (leads before holds).run before holds }
