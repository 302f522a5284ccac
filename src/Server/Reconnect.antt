-- ===== src/Server/Reconnect.antt =====
-- A client of internal/server/websocket.go that connects again before its old connection has ended.
use claude_ds_project.Base.{
  set, set-other, ℕ, ◌≡◌, ◌≢◌, inl, refl, sym, ◌∙◌, ap, Option, none, some, true, false,
}
use claude_ds_project.Outcome.{ok}
use claude_ds_project.Fsm.{RaftLogEntry, ApplyResult}
use claude_ds_project.Server.ClientMap.{lookup, remove, lookup-remove_same}
use claude_ds_project.Server.{
  WsClient, Heap, reading, ended, held, Server, disconnect_at, disconnected, step, on_commit,
}
use claude_ds_project.Server.Delivery.{on_commit-IsInformed}
use claude_ds_project.Server.Soundness.{IsSound-disconnect}
use claude_ds_project.Server.Survival.{IsRunning}

module _ {B : Type 0} (marshal : RaftLogEntry → Option B) (decode : B → Option RaftLogEntry) where
  -- On a server with the invariant, when two connections hold clients of one id, the end of either takes the id
  -- from the map: the other connection goes on, its channel open, but the next callback, of whatever result, sends
  -- nothing to its client. The answers to its own messages still reach it.
  pub disconnected-silences :
      (s : Server B) (p q a b : ℕ)
      → IsRunning s
      → p ≢ q
      → s.pumps p ≡ reading (some a)
      → s.pumps q ≡ reading (some b)
      → (s.heap b).id ≡ (s.heap a).id
      → (s' : Server B) × (step marshal decode s (disconnected p) ≡ ok s')
        × (s'.pumps q ≡ reading (some b))
        × ((s'.heap b).closed ≡ false)
        × ((r : ApplyResult)
            → (heap' : Heap) × (on_commit s' r ≡ ok (record s' { heap = heap' }))
              × (heap' b ≡ s'.heap b))
  unfolding step disconnect_at
  disconnected-silences s p q a b h apart at_p at_q name =
      let shut : WsClient = record (s.heap a) { closed = true } in
      let s' : Server B = record s {
        clients = remove (s.heap a).id s.clients;
        heap = set a shut s.heap;
        pumps = set p ended s.pumps;
      } in
      let sound = IsSound-disconnect h p a (ap held at_p) in
      let other : b ≢ a = λ e. apart (h.owned p q a (ap held at_p) (ap held at_q ∙ ap some e)) in
      let old : s'.heap b ≡ s.heap b = set-other a shut s.heap b other in
      (
        s',
        rw (at_p, (h.living p a (ap held at_p)).1) refl,
        set-other p ended s.pumps q (λ e. apart (sym e)) ∙ at_q,
        ap (λ c. c.closed) old ∙ (h.living q b (ap held at_q)).1,
        λ r.
            let (heap', runs, told) = on_commit-IsInformed s' r sound.registry in
            let gone : lookup (s'.heap b).id s'.clients ≡ none =
              ap (λ k. lookup k s'.clients) (ap (λ c. c.id) old ∙ name)
              ∙ lookup-remove_same (s.heap a).id s.clients in
            (heap', runs, told.silent b (inl (λ found. let f = sym gone ∙ found in cc))),
      )
