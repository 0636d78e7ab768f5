-- ===== src/Merge/Service/Alone.antt =====
-- A server that is alone in the list.
use chmpx.Base.{
  ℕ, ◌≡◌, refl, sym, subst, ◌⊎◌, ap, ◌∙◌, Bool, true, false, not, ◌==◌, Bool-cases, inl, inr, none,
  List, [], ◌∷◌, ◌++◌, arith, if◌then◌else◌,
}
use chmpx.Exec.{Exec, give, look, write, ◌>>=◌}
use chmpx.Exec.Keeps.{
  Keeps, keeps_rules, Keeps-write, Keeps-if, Keeps-give, Keeps-bind, Keeps-look, Refuses-look,
  Refuses, Refuses-if, Refuses-later, Refuses-first,
}
use chmpx.Status.Change.{change_to_srvout}
use chmpx.Ring.{Chmpx, Ring, set_status, hashtg_pending, invalid_chmpxid}
use chmpx.Ring.Walk.{after, scan, is_next, back, ended, to_next}
use chmpx.IdMap.{is_server_mode}
use chmpx.Man.{Man, man_update_hash}
use chmpx.Man.SetStatus.{recount, set_self_status}
use chmpx.Man.Select.{get_next_ring_chmpxid}
use chmpx.Merge.{
  Packet, Answer, Node, World, on_man, self_chmpx, set_status_of_self, update_pending_hash,
  server_status, say, deny, or_deny, error_status_not_allowed, error_command_on_server,
  error_operating,
}
use chmpx.Merge.Send.{
  send, send_to_slaves, px_com_send_slaves_status_change, others, first_connected,
  next_ring_chmpxid, px_com_send_status_change,
}
use chmpx.Merge.Service.{
  change_self, notice_alone, notice_around, self_out, complete_out, out_of, request_service_out,
}
use chmpx.Merge.Safe.Steady.{update_hash-Steady}

-- The server list is the own node alone.
pub record IsAlone (n : Node) : Type 0 where
  pub servers : n.man.ring.servers ≡ n.man.self ∷ []

same : (x : ℕ) → (x == x) ≡ true
same x = ground arith

scan-alone :
    (ok : ℕ → Bool) (cur : ℕ) (servers : List ℕ)
    → servers ≡ cur ∷ []
    → (scan ok cur (after cur servers) ≡ ended) × (scan ok cur servers ≡ back)
unfolding after scan
scan-alone ok cur servers e = rw (e, same cur) (refl, refl)

to_next-alone :
    (base up suspended : Bool) (cur : ℕ) (r : Ring)
    → r.servers ≡ cur ∷ []
    → to_next true base up false suspended cur r ≡ (false, cur)
unfolding to_next
to_next-alone base up suspended cur r e =
    let k = scan-alone (is_next base up suspended r.store) cur r.servers e in
    rw (k.0, k.1, to_next) refl

get_next-alone :
    (m : Man)
    → m.ring.servers ≡ m.self ∷ []
    → get_next_ring_chmpxid invalid_chmpxid m ≡ invalid_chmpxid
unfolding get_next_ring_chmpxid
get_next-alone m e = elim (Bool-cases (is_server_mode (m.ring.store m.self))) [
  | inl k ↦ rw (k, to_next-alone false true false m.self m.ring e) refl
  | inr k ↦ rw k refl
]

others-alone : (self : ℕ) (servers : List ℕ) → servers ≡ self ∷ [] → others self servers ≡ []
unfolding others
others-alone self servers e = rw (e, same self) refl

next-alone : (w : World) (n : Node) → IsAlone n → next_ring_chmpxid w n ≡ invalid_chmpxid
unfolding next_ring_chmpxid first_connected
next-alone w n a =
    rw (get_next-alone n.man a.servers, others-alone n.man.self n.man.ring.servers a.servers) refl

Keeps-aside : (f : Node → Node) → ((n : Node) → (f n).man ≡ n.man) → Keeps IsAlone (write f)
Keeps-aside f unchanged =
    Keeps-write f (λ n a. record { servers = moved (f n).man n.man (unchanged n) a.servers })
  where
    moved : (m m' : Man) → m ≡ m' → m'.ring.servers ≡ m'.self ∷ [] → m.ring.servers ≡ m.self ∷ []
    moved m m' e h = rw e h

say-IsAlone : (asked : Bool) (a : Answer) → Keeps IsAlone (say asked a)
unfolding say
say-IsAlone true a = Keeps-aside (λ n. record n { answer = a ∷ [] }) (λ n. refl)
say-IsAlone false a = Keeps-aside (λ n. n) (λ n. refl)

deny-IsAlone : {A : Type 0} (asked : Bool) (a : Answer) → Keeps IsAlone (deny {A = A} asked a)
unfolding deny
deny-IsAlone {A} asked a = search (keeps_rules, say-IsAlone)

or_deny-IsAlone :
    (call : Exec Node (Unit {0})) (asked : Bool) (a : Answer)
    → Keeps IsAlone call
    → Keeps IsAlone (or_deny call asked a)
unfolding or_deny
or_deny-IsAlone call asked a k = search (keeps_rules, deny-IsAlone)

on_man-IsAlone :
    (f : Man → Bool × Man)
    → ((m : Man) → ((f m).1.ring.servers ≡ m.ring.servers) × ((f m).1.self ≡ m.self))
    → Keeps IsAlone (on_man f)
unfolding on_man ◌>>=◌
on_man-IsAlone f same_list = record {
  run = λ n a.
      let k = same_list n.man in
      elim (Bool-cases (f n.man).0) [
        | inl e ↦ rw e (record { servers = k.0 ∙ (a.servers ∙ ap (λ x. x ∷ []) (sym k.1)) })
        | inr e ↦ rw e (record { servers = k.0 ∙ (a.servers ∙ ap (λ x. x ∷ []) (sym k.1)) })
      ];
}

set_self_status-self :
    (now status : ℕ) (join : Bool) (m : Man)
    → ((set_self_status now status join m).1.ring.servers ≡ m.ring.servers)
      × ((set_self_status now status join m).1.self ≡ m.self)
unfolding set_self_status set_status recount
set_self_status-self now status join m = ground arith

man_update_hash-self :
    (server : Bool) (now type : ℕ) (m : Man)
    → ((man_update_hash server now type true true m).1.ring.servers ≡ m.ring.servers)
      × ((man_update_hash server now type true true m).1.self ≡ m.self)
unfolding man_update_hash
man_update_hash-self server now type m = ((update_hash-Steady now type m.ring).servers, refl)

module _ (w : World) where
  send-IsAlone : (p : Packet) → Keeps IsAlone (send w p)
  unfolding send
  send-IsAlone p =
      let sent = Keeps-aside (λ n. record n { sent = n.sent ++ p ∷ [] }) (λ n. refl) in
      search (keeps_rules)

  send_to_slaves-IsAlone :
      (server : Chmpx) (ids : List ℕ) → Keeps IsAlone (send_to_slaves w server ids)
  unfolding send_to_slaves
  send_to_slaves-IsAlone server [] = Keeps-give tt
  send_to_slaves-IsAlone server (id ∷ rest) =
      let ih = send_to_slaves-IsAlone server rest in search (keeps_rules, send-IsAlone) depth 12

  slaves-IsAlone : (server : Chmpx) → Keeps IsAlone (px_com_send_slaves_status_change w server)
  unfolding px_com_send_slaves_status_change
  slaves-IsAlone server = search (keeps_rules, send_to_slaves-IsAlone)

  set_status_of_self-IsAlone : (status : ℕ) → Keeps IsAlone (set_status_of_self w status)
  unfolding set_status_of_self
  set_status_of_self-IsAlone status = Keeps-bind (look (λ n. n)) _ (Keeps-look (λ n. n)) (λ n.
      on_man-IsAlone (set_self_status w.now status n.has_clients)
        (set_self_status-self w.now status n.has_clients))

  update_pending_hash-IsAlone : Keeps IsAlone (update_pending_hash w)
  unfolding update_pending_hash
  update_pending_hash-IsAlone = Keeps-bind (look (λ n. n)) _ (Keeps-look (λ n. n)) (λ n.
      on_man-IsAlone
        (man_update_hash (is_server_mode (self_chmpx n)) w.now hashtg_pending true true)
        (man_update_hash-self (is_server_mode (self_chmpx n)) w.now hashtg_pending))

  change_self-IsAlone : (asked : Bool) (status : ℕ) → Keeps IsAlone (change_self w asked status)
  unfolding change_self
  change_self-IsAlone asked status =
      search (keeps_rules, or_deny-IsAlone, set_status_of_self-IsAlone, update_pending_hash-IsAlone)
        depth 12

  notice_alone-IsAlone :
      (asked : Bool) (server : Chmpx) → Keeps IsAlone (notice_alone w asked server)
  unfolding notice_alone
  notice_alone-IsAlone asked server =
      search (keeps_rules, or_deny-IsAlone, slaves-IsAlone, say-IsAlone) depth 12

  -- Nothing goes around a RING that has no other server.
  notice_around-Refuses :
      (asked : Bool) (server : Chmpx)
      → Refuses IsAlone (notice_around w asked invalid_chmpxid server)
  unfolding notice_around px_com_send_status_change or_deny deny say ◌>>=◌
  notice_around-Refuses asked server = record { run = λ n a. refl }

  deny-Refuses : (asked : Bool) (a : Answer) → Refuses IsAlone (deny {A = Unit {0}} asked a)
  unfolding deny say ◌>>=◌
  deny-Refuses asked a = record { run = λ n h. refl }

  self_out-Refuses : (asked : Bool) (status : ℕ) → Refuses IsAlone (self_out w asked status)
  unfolding self_out
  self_out-Refuses asked status =
      Refuses-if (change_to_srvout status == status) _ _
        (deny-Refuses asked error_status_not_allowed)
        (Refuses-later (change_self w asked (change_to_srvout status)) _
          (change_self-IsAlone asked (change_to_srvout status))
          (λ u. Refuses-look _ (λ n a.
            Refuses-later _ _
              (Keeps-if (next_ring_chmpxid w n == invalid_chmpxid)
                (notice_alone w asked (self_chmpx n)) (give tt)
                (notice_alone-IsAlone asked (self_chmpx n)) (Keeps-give tt))
              (λ v.
                subst (λ id. Refuses IsAlone (notice_around w asked id (self_chmpx n)))
                  (sym (next-alone w n a)) (notice_around-Refuses asked (self_chmpx n))))))

  out_of-Refuses :
      (asked : Bool) (id : ℕ) (n : Node)
      → (self_chmpx n).chmpxid ≡ id
      → Refuses IsAlone (out_of w asked id n)
  unfolding out_of
  out_of-Refuses asked id n e =
      rw (e, same id)
        (Refuses-first (self_out w asked (server_status id n.man)) (λ u. complete_out w asked)
          (self_out-Refuses asked (server_status id n.man)))

  -- The bug: RequestServiceOut for the own server, named by its id or by the invalid id, fails in
  -- every state in which the server list is the own node alone. The notice to the next server is
  -- missing its `else` there, and is sent to the invalid id after the slaves have been told.
  pub request_service_out_fails_alone :
      (chmpxid : ℕ) (asked : Bool) (n : Node)
      → IsAlone n
      → (chmpxid ≡ invalid_chmpxid) ⊎ (chmpxid ≡ (self_chmpx n).chmpxid)
      → (request_service_out w chmpxid asked n).0 ≡ none
  unfolding request_service_out ◌>>=◌
  request_service_out_fails_alone id asked n a which =
      let named : (self_chmpx n).chmpxid
          ≡ (if id == invalid_chmpxid then (self_chmpx n).chmpxid else id) =
        ground arith in
      (Refuses-if (not n.is_server_mode) _ _ (deny-Refuses asked error_command_on_server) (
          Refuses-if n.man.is_operating _ _ (deny-Refuses asked error_operating) (
            out_of-Refuses asked (if id == invalid_chmpxid then (self_chmpx n).chmpxid else id) n
              named))).run
        n a
