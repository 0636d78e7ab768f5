-- ===== src/Exec.antt =====
-- Handlers of the C++ code that return bool: a run from a state to the state after it, with `none`
-- when the handler has returned false. What was written before stays written.
pub mod Keeps
pub mod Leads
use chmpx.Base.{Bool, true, false, Option, none, some}

abbrev pub Exec : Type 0 → Type 0 → Type 0
Exec S A = S → Option A × S

module _ {S A : Type 0} where
  unfoldable pub give : A → Exec S A
  give a s = (some a, s)

  -- `return false`
  unfoldable pub refuse : Exec S A
  refuse s = (none, s)

  unfoldable pub or_refuse : Option A → Exec S A
  or_refuse none s = (none, s)
  or_refuse (some a) s = (some a, s)

  unfoldable pub look : (S → A) → Exec S A
  look f s = (some (f s), s)

  -- A call whose failure ends the handler, and one after which it goes on (`but continue...`)
  unfoldable pub attempt : Exec S A → Exec S Bool
  attempt m s = let (r, s') = m s in (some (elim r [ none ↦ false | some a ↦ true ]), s')

module _ {S : Type 0} where
  unfoldable pub write : (S → S) → Exec S (Unit {0})
  write f s = (some tt, f s)

  unfoldable pub demand : Bool → Exec S (Unit {0})
  demand true s = (some tt, s)
  demand false s = (none, s)

module _ {S A B : Type 0} where
  abbrev pub resume : Option A → (A → Exec S B) → Exec S B
  resume none f s = (none, s)
  resume (some a) f s = f a s

  infixl 10 ◌>>=◌ ◌>>◌
  unfoldable pub ◌>>=◌ : Exec S A → (A → Exec S B) → Exec S B
  unfolding give refuse or_refuse look attempt write demand
  ◌>>=◌ m f s = let (r, s') = m s in resume r f s'

  abbrev pub ◌>>◌ : Exec S A → Exec S B → Exec S B
  m >> k = m >>= λ _. k
