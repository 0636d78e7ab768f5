-- ===== src/Merge/Settle/Quiet.antt =====
-- Sending a status leaves the shared memory as it is.
use chmpx.Base.{ℕ, List, [], ◌∷◌, ◌++◌}
use chmpx.Exec.{write}
use chmpx.Exec.Keeps.{Keeps, Keeps-give, Keeps-write, keeps_rules}
use chmpx.Ring.{Chmpx}
use chmpx.Man.{Man}
use chmpx.Merge.{Packet, Node, World, get_chmpx_svr}
use chmpx.Merge.Send.{
  send, send_to_slaves, px_com_send_slaves_status_change, px_com_send_status_change, tell_status,
}

module _ (P : Man → Type 0) (w : World) where
  sent-quiet :
      (p : Packet)
      → Keeps (λ n. P n.man) (write (λ (n : Node). record n { sent = n.sent ++ p ∷ [] }))
  sent-quiet p = Keeps-write _ (λ n h. h)

  send-quiet : (p : Packet) → Keeps (λ n. P n.man) (send w p)
  unfolding send
  send-quiet p = search (keeps_rules, sent-quiet) depth 12

  send_to_slaves-quiet :
      (server : Chmpx) (ids : List ℕ) → Keeps (λ n. P n.man) (send_to_slaves w server ids)
  unfolding send_to_slaves
  send_to_slaves-quiet server [] = Keeps-give tt
  send_to_slaves-quiet server (id ∷ rest) =
      let ih = send_to_slaves-quiet server rest in search (keeps_rules, send-quiet) depth 12

  slaves-quiet : (server : Chmpx) → Keeps (λ n. P n.man) (px_com_send_slaves_status_change w server)
  unfolding px_com_send_slaves_status_change
  slaves-quiet server = search (keeps_rules, send_to_slaves-quiet) depth 12

  status_change-quiet :
      (id : ℕ) (server : Chmpx) → Keeps (λ n. P n.man) (px_com_send_status_change w id server)
  unfolding px_com_send_status_change
  status_change-quiet id server = search (keeps_rules, send-quiet, slaves-quiet) depth 12

  pub tell_status-quiet : (id : ℕ) (server : Chmpx) → Keeps (λ n. P n.man) (tell_status w id server)
  unfolding tell_status
  tell_status-quiet id server = search (keeps_rules, slaves-quiet, status_change-quiet) depth 12

  pub get_chmpx_svr-quiet : (id : ℕ) → Keeps (λ n. P n.man) (get_chmpx_svr id)
  unfolding get_chmpx_svr
  get_chmpx_svr-quiet id = search keeps_rules
