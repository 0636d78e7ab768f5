-- ===== src/Merge/Safe/Packets.antt =====
-- The packets that go around the RING keep the counts of the shared memory right.
use chmpx.Base.{ℕ, zero, suc, ◌≡◌, refl, Bool, true, false, if◌then◌else◌, Option, none, some}
use chmpx.Exec.{write}
use chmpx.Exec.Keeps.{Keeps, Keeps-give}
use chmpx.Merge.{Node, World}
use chmpx.Merge.Receive.{
  next_of, pass_on, receive_merge_abort, receive_merge_suspend, receive_merge_no_suspend,
}
use chmpx.Merge.Settle.{settle, settle_all, receive_merge_start, receive_merge_complete}
use chmpx.Merge.Safe.{Ready, Keeps-aside, ready_rules}
use chmpx.Merge.Safe.Handlers.{packet_rules}

module _ (w : World) where
  next_of-Ready : (dept : ℕ) → Keeps Ready (next_of w dept)
  unfolding next_of
  next_of-Ready dept = search ready_rules depth 12

  pub receive_merge_abort-Ready :
      (dept : ℕ) (ok : Bool) → Keeps Ready (receive_merge_abort w dept ok)
  unfolding receive_merge_abort
  receive_merge_abort-Ready dept ok = search (ready_rules, next_of-Ready) depth 12

  changed-Ready :
      (change : Node → Node) (ok : Bool)
      → ((n : Node) → (change n).man ≡ n.man)
      → Keeps Ready (write (λ (n : Node). if ok then change n else n))
  changed-Ready change true same = Keeps-aside change same
  changed-Ready change false same = Keeps-aside (λ n. n) (λ n. refl)

  pass_on-Ready :
      (change : Node → Node) (dept : ℕ) (ok : Bool) (found : Option ℕ)
      → ((n : Node) → (change n).man ≡ n.man)
      → Keeps Ready (pass_on w change dept ok found)
  unfolding pass_on
  pass_on-Ready change dept ok none same = search ready_rules depth 12
  pass_on-Ready change dept ok (some next) same =
      let changed = changed-Ready change ok same in search ready_rules depth 12

  suspend_on-Ready :
      (dept : ℕ) (ok : Bool) (found : Option ℕ)
      → Keeps Ready (
          pass_on w
            (λ n. record n { is_auto_merge_suspend = true; startup_servicein = false })
            dept
            ok
            found)
  suspend_on-Ready dept ok found = pass_on-Ready _ dept ok found (λ n. refl)

  no_suspend_on-Ready :
      (dept : ℕ) (ok : Bool) (found : Option ℕ)
      → Keeps Ready (pass_on w (λ n. record n { is_auto_merge_suspend = false }) dept ok found)
  no_suspend_on-Ready dept ok found = pass_on-Ready _ dept ok found (λ n. refl)

  pub receive_merge_suspend-Ready :
      (dept : ℕ) (ok : Bool) → Keeps Ready (receive_merge_suspend w dept ok)
  unfolding receive_merge_suspend
  receive_merge_suspend-Ready dept ok =
      search (ready_rules, next_of-Ready, suspend_on-Ready) depth 12

  pub receive_merge_no_suspend-Ready :
      (dept : ℕ) (ok : Bool) → Keeps Ready (receive_merge_no_suspend w dept ok)
  unfolding receive_merge_no_suspend
  receive_merge_no_suspend-Ready dept ok =
      search (ready_rules, next_of-Ready, no_suspend_on-Ready) depth 12

  settle-Ready : (fuel old status next : ℕ) → Keeps Ready (settle w fuel old status next)
  unfolding settle
  settle-Ready zero old status next = Keeps-give false
  settle-Ready (suc fuel) old status next =
      let ih = settle-Ready fuel old status next in search packet_rules depth 12

  settle_all-Ready : (old status : ℕ) → Keeps Ready (settle_all w old status)
  unfolding settle_all
  settle_all-Ready old status = search (packet_rules, settle-Ready) depth 12

  pub receive_merge_start-Ready :
      (dept : ℕ) (ok : Bool) → Keeps Ready (receive_merge_start w dept ok)
  unfolding receive_merge_start
  receive_merge_start-Ready dept ok =
      search (packet_rules, next_of-Ready, settle_all-Ready) depth 12

  pub receive_merge_complete-Ready :
      (dept : ℕ) (ok : Bool) → Keeps Ready (receive_merge_complete w dept ok)
  unfolding receive_merge_complete
  receive_merge_complete-Ready dept ok =
      search (packet_rules, next_of-Ready, settle_all-Ready) depth 12
