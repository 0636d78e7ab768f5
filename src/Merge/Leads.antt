-- ===== src/Merge/Leads.antt =====
-- What holds after a successful call on the shared memory.
use chmpx.Base.{◌≡◌, Bool, true, none, some, Bool-cases, inl, inr}
use chmpx.Exec.{◌>>=◌}
use chmpx.Man.{Man}
use chmpx.Merge.{Node, on_man}

pub on_man-Leads :
    (f : Man → Bool × Man) (P : Man → Type 0) (n : Node)
    → ((f n.man).0 ≡ true → P (f n.man).1)
    → (a : Unit {0}) → (on_man f n).0 ≡ some a
    → P (on_man f n).1.man
unfolding on_man ◌>>=◌
on_man-Leads f P n h a e = elim (Bool-cases (f n.man).0) [
  | inl done ↦ rw done (h done)
  | inr refused ↦ (let k : none ≡ some a = rw refused at e in cc)
]
