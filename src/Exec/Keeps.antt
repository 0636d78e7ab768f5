-- ===== src/Exec/Keeps.antt =====
-- Invariants of handlers by the way they are built, and handlers that always refuse.
use chmpx.Base.{◌≡◌, refl, Bool, true, false, Option, none, some, if◌then◌else◌}
use chmpx.Exec.{Exec, resume, give, refuse, or_refuse, look, attempt, write, demand, ◌>>=◌}

-- From a state with the property a handler leads to a state with it, whatever it returns.
pub record Keeps {State Out : Type 0} (Inv : State → Type 0) (call : Exec State Out) : Type 0 where
  pub run : (before : State) → Inv before → Inv (call before).1

module _ {State Out : Type 0} {Inv : State → Type 0} where
  pub Keeps-give : (a : Out) → Keeps Inv (give a)
  unfolding give
  Keeps-give a = record { run = λ before holds. holds }

  pub Keeps-refuse : Keeps Inv (refuse {A = Out})
  unfolding refuse
  Keeps-refuse = record { run = λ before holds. holds }

  pub Keeps-or_refuse : (o : Option Out) → Keeps Inv (or_refuse o)
  unfolding or_refuse
  Keeps-or_refuse none = record { run = λ before holds. holds }
  Keeps-or_refuse (some a) = record { run = λ before holds. holds }

  pub Keeps-look : (rest : State → Out) → Keeps Inv (look rest)
  unfolding look
  Keeps-look rest = record { run = λ before holds. holds }

  pub Keeps-attempt : (call : Exec State Out) → Keeps Inv call → Keeps Inv (attempt call)
  unfolding attempt
  Keeps-attempt call keeps = record { run = λ before holds. keeps.run before holds }

  pub Keeps-if :
      (b : Bool) (call other : Exec State Out)
      → Keeps Inv call
      → Keeps Inv other
      → Keeps Inv (if b then call else other)
  Keeps-if true call other kept kn = kept
  Keeps-if false call other kept kn = kn

module _ {State : Type 0} {Inv : State → Type 0} where
  pub Keeps-demand : (b : Bool) → Keeps Inv (demand b)
  unfolding demand
  Keeps-demand true = record { run = λ before holds. holds }
  Keeps-demand false = record { run = λ before holds. holds }

  pub Keeps-write :
      (rest : State → State)
      → ((before : State) → Inv before → Inv (rest before))
      → Keeps Inv (write rest)
  unfolding write
  Keeps-write rest keeps = record { run = keeps }

module _ {State Out Last : Type 0} {Inv : State → Type 0} where
  resume_keeps :
      (r : Option Out) (rest : Out → Exec State Last)
      → ((a : Out) → Keeps Inv (rest a))
      → (before : State) → Inv before
      → Inv (resume r rest before).1
  resume_keeps none rest keeps before holds = holds
  resume_keeps (some a) rest keeps before holds = (keeps a).run before holds

  pub Keeps-bind :
      (call : Exec State Out) (rest : Out → Exec State Last)
      → Keeps Inv call
      → ((a : Out) → Keeps Inv (rest a))
      → Keeps Inv (call >>= rest)
  unfolding ◌>>=◌
  Keeps-bind call rest kept keeps_rest = record {
    run = λ before holds.
        resume_keeps (call before).0 rest keeps_rest (call before).1 (kept.run before holds);
  }

pub ruleset keeps_rules = (
  Keeps-give, Keeps-refuse, Keeps-or_refuse, Keeps-look, Keeps-attempt, Keeps-if, Keeps-demand,
  Keeps-bind,
)

-- A handler that refuses in every state with the property
pub record Refuses {State Out : Type 0} (Inv : State → Type 0) (call : Exec State Out)
    : Type 0 where
  pub run : (before : State) → Inv before → (call before).0 ≡ none

module _ {State Out : Type 0} {Inv : State → Type 0} where
  pub Refuses-refuse : Refuses Inv (refuse {A = Out})
  unfolding refuse
  Refuses-refuse = record { run = λ before holds. refl }

  pub Refuses-if :
      (b : Bool) (call other : Exec State Out)
      → Refuses Inv call
      → Refuses Inv other
      → Refuses Inv (if b then call else other)
  Refuses-if true call other kept kn = kept
  Refuses-if false call other kept kn = kn

module _ {State Out Last : Type 0} {Inv : State → Type 0} where
  resume-Refuses :
      (r : Option Out) (rest : Out → Exec State Last)
      → ((a : Out) → Refuses Inv (rest a))
      → (before : State) → Inv before
      → (resume r rest before).0 ≡ none
  resume-Refuses none rest keeps before holds = refl
  resume-Refuses (some a) rest keeps before holds = (keeps a).run before holds

  -- By a later part, if the first keeps the property, or by the first part
  pub Refuses-later :
      (call : Exec State Out) (rest : Out → Exec State Last)
      → Keeps Inv call
      → ((a : Out) → Refuses Inv (rest a))
      → Refuses Inv (call >>= rest)
  unfolding ◌>>=◌
  Refuses-later call rest kept keeps_rest = record {
    run = λ before holds.
        resume-Refuses (call before).0 rest keeps_rest (call before).1 (kept.run before holds);
  }

  pub Refuses-first :
      (call : Exec State Out) (rest : Out → Exec State Last)
      → Refuses Inv call
      → Refuses Inv (call >>= rest)
  unfolding ◌>>=◌
  Refuses-first call rest kept = record { run = λ before holds. rw (kept.run before holds) refl }

module _ {State Last : Type 0} {Inv : State → Type 0} where
  -- What the state is may be used where it is looked at.
  pub Refuses-look :
      (rest : State → Exec State Last)
      → ((before : State) → Inv before → Refuses Inv (rest before))
      → Refuses Inv (look (λ before. before) >>= rest)
  unfolding ◌>>=◌
  Refuses-look rest keeps = record { run = λ before holds. (keeps before holds).run before holds }
