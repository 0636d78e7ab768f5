-- ===== src/Merge/Send.antt =====
-- lib/chmeventsock.cc: the packets of the handlers of a merge, and the server of the RING that they
-- go to.
use chmpx.Base.{
  ℕ, Bool, true, false, not, ◌&&◌, ◌==◌, if◌then◌else◌, none, some, List, [], ◌∷◌, ◌++◌, not_empty,
}
use chmpx.Exec.{Exec, give, refuse, look, attempt, write, demand, ◌>>=◌, ◌>>◌}
use chmpx.Status.{is_server, is_up}
use chmpx.Ring.{Chmpx, invalid_chmpxid}
use chmpx.Ring.Walk.{after}
use chmpx.IdMap.{is_in}
use chmpx.Man.{Man}
use chmpx.Man.Select.{find_server, get_next_ring_chmpxid}
use chmpx.Merge.{Packet, status_change, status_confirm, Node, World, server_status}

-- IsServerChmpxId
unfoldable pub is_server_chmpxid : ℕ → Man → Bool
is_server_chmpxid chmpxid m = elim (find_server chmpxid m) [ none ↦ false | some a ↦ true ]

-- The nodes before a node of a list, and all nodes that GetNextServerPos leads to from the own node
-- around the list before it comes back. A node that is not in the list leads nowhere.
unfoldable pub before : ℕ → List ℕ → List ℕ
before cur [] = []
before cur (a ∷ rest) = let nodes = a ∷ before cur rest in if cur == a then [] else nodes

unfoldable pub others : ℕ → List ℕ → List ℕ
unfolding before after
others self servers = if is_in self servers then after self servers ++ before self servers else []

module _ (w : World) where
  -- ChmEventSock::Send
  unfoldable pub send : Packet → Exec Node (Unit {0})
  send p = do write (λ n. record n { sent = n.sent ++ p ∷ [] }); demand (w.delivers p)

  -- The loop of PxComSendSlavesStatusChange; a failure does not end it.
  unfoldable pub send_to_slaves : Chmpx → List ℕ → Exec Node (Unit {0})
  send_to_slaves server [] = give tt
  send_to_slaves server (chmpxid ∷ rest) = do
    n ← look (λ n. n)
    attempt
        (if is_server_chmpxid chmpxid n.man then give tt else send (status_change chmpxid server))
    send_to_slaves server rest

  unfoldable pub px_com_send_slaves_status_change : Chmpx → Exec Node (Unit {0})
  px_com_send_slaves_status_change server = do n ← look (λ n. n); send_to_slaves server n.slaves

  unfoldable pub px_com_send_status_change : ℕ → Chmpx → Exec Node (Unit {0})
  px_com_send_status_change chmpxid server = if chmpxid == invalid_chmpxid then refuse else do
    send (status_change chmpxid server)
    attempt (px_com_send_slaves_status_change server)
    give tt

  unfoldable pub px_com_send_status_confirm : ℕ → List Chmpx → Exec Node (Unit {0})
  px_com_send_status_confirm chmpxid servers =
      if not (chmpxid == invalid_chmpxid) && not_empty servers
      then send (status_confirm chmpxid servers)
      else refuse

  -- PxComSendMergeAbort, PxComSendMergeComplete, PxComSendMergeSuspend, PxComSendMergeNoSuspend
  unfoldable pub px_com_send : (ℕ → Packet) → ℕ → Exec Node (Unit {0})
  px_com_send packet chmpxid = if chmpxid == invalid_chmpxid then refuse else send (packet chmpxid)

  -- The loop of GetNextRingChmpxId over the other servers: the first that is up and can be connected
  unfoldable pub first_connected : List ℕ → Man → ℕ
  first_connected [] m = invalid_chmpxid
  first_connected (a ∷ rest) m =
      let chmpxid = (m.ring.store a).chmpxid in
      let status = server_status chmpxid m in
      let further = first_connected rest m in
      if (m.ring.store a).has_name
        && not (chmpxid == invalid_chmpxid)
        && is_server status
        && is_up status
        && w.connects chmpxid
      then chmpxid
      else further

  -- ChmEventSock::GetNextRingChmpxId
  unfoldable pub next_ring_chmpxid : Node → ℕ
  next_ring_chmpxid n =
      let next = get_next_ring_chmpxid invalid_chmpxid n.man in
      let found = first_connected (others n.man.self n.man.ring.servers) n.man in
      if next == invalid_chmpxid then found else next

  -- A status goes to the next server and on from there, or to the slaves alone if there is no other
  -- server.
  unfoldable pub tell_status : ℕ → Chmpx → Exec Node (Unit {0})
  tell_status to_chmpxid server =
      if to_chmpxid == invalid_chmpxid
      then px_com_send_slaves_status_change server
      else px_com_send_status_change to_chmpxid server
