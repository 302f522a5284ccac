-- ===== src/Server/Runs.antt =====
-- Sequences of events of a server (internal/server/websocket.go).
use claude_ds_project.Base.{
  set, ℕ, ◌≡◌, ◌≢◌, refl, ◌∙◌, ap, List, [], ◌∷◌, ◌++◌, arith, Option, none, some,
}
use claude_ds_project.Outcome.{Outcome, ok, ◌>>=◌}
use claude_ds_project.Fsm.{Machine, RaftLogEntry, ApplyResult, apply}
use claude_ds_project.Server.{
  WsClient, Server, new_node, result_of, called_back, take_at, drain, Event, received, resolved,
  disconnected, committed, notified, written, leader_changed, step,
}
use claude_ds_project.Server.Sending.{set-Keeps}
use claude_ds_project.Server.Delivery.{on_commit-IsInformed}
use claude_ds_project.Server.Soundness.{IsSound-Keeps}
use claude_ds_project.Server.Survival.{
  IsRunning, AreValid, GoesOn, IsHarmlessPacket, receive-GoesOn, resolve-GoesOn, disconnect-GoesOn,
}

drain-kept :
    (c : WsClient)
    → ((drain c).id ≡ c.id) × ((drain c).closed ≡ c.closed) × ((drain c).conn ≡ c.conn)
unfolding drain
drain-kept c = (refl, refl, refl)

none-some : {a : ℕ} → none ≢ some a
none-some h = cc

module _ {B : Type 0} (marshal : RaftLogEntry → Option B) (decode : B → Option RaftLogEntry) where
  -- An event on which the state machine does not panic: the revisions that a client asks for, in the one CONNECT of
  -- its connection, and an entry.
  abbrev pub IsHarmless : Server B → Event B → Type 0
  IsHarmless s (received p packet) = IsHarmlessPacket marshal s p packet
  IsHarmless s (committed b) =
      (x : Machine × Option ApplyResult) × (apply decode s.machine b ≡ ok x)
  IsHarmless s _ = Unit

  called_back-GoesOn :
      (s : Server B) (x : Option (ApplyResult × List ApplyResult))
      → IsRunning s
      → GoesOn marshal s (called_back s x)
  called_back-GoesOn s none h = (s, refl, h, λ v. v)
  called_back-GoesOn s (some (r, rest)) h =
      let (heap', runs, told) = on_commit-IsInformed (record s { callbacks = rest }) r h.registry in
      (
        record s { callbacks = rest; heap = heap' },
        runs,
        IsSound-Keeps told.kept (λ _. refl) (λ _ e. e) h,
        λ v. v,
      )

  result_of-GoesOn :
      (s : Server B) (x : Machine × Option ApplyResult)
      → IsRunning s
      → GoesOn marshal s (result_of s x)
  result_of-GoesOn s (m, none) h = (record s { machine = m }, refl, h, λ v. v)
  result_of-GoesOn s (m, some r) h =
      (record s { machine = m; callbacks = s.callbacks ++ (r ∷ []) }, refl, h, λ v. v)

  pub step-GoesOn :
      (s : Server B) (event : Event B)
      → IsRunning s
      → IsHarmless s event
      → GoesOn marshal s (step marshal decode s event)
  unfolding step
  step-GoesOn s (received p packet) h k = receive-GoesOn marshal s p (s.pumps p) packet h refl k
  step-GoesOn s (resolved p answer) h k = resolve-GoesOn marshal s p (s.pumps p) answer h refl
  step-GoesOn s (disconnected p) h k = disconnect-GoesOn marshal s p (s.pumps p) h refl
  step-GoesOn s (committed b) h (x, returns) =
      let (s', runs, sound, valid) = result_of-GoesOn s x h in
      (s', ap (λ o. o >>= result_of s) returns ∙ runs, sound, valid)
  step-GoesOn s (notified i) h k = called_back-GoesOn s (take_at i s.callbacks) h
  step-GoesOn s (written a) h k =
      let (id, channel, conn) = drain-kept (s.heap a) in
      (
        record s { heap = set a (drain (s.heap a)) s.heap },
        refl,
        IsSound-Keeps (set-Keeps s.heap a (drain (s.heap a)) id channel conn) (λ _. refl) (λ _ e. e)
            h,
        λ v. v,
      )
  step-GoesOn s (leader_changed is_leader addr) h k =
      (record s { is_leader = is_leader; leader_addr = addr }, refl, h, λ v. v)

  unfoldable pub run : Server B → List (Event B) → Outcome (Server B)
  unfolding step
  run s [] = ok s
  run s (event ∷ events) = step marshal decode s event >>= λ s'. run s' events

  -- No event of the sequence meets a panic of the state machine.
  abbrev pub AreHarmless : Server B → List (Event B) → Type 0
  AreHarmless s [] = Unit
  AreHarmless s (event ∷ events) =
      IsHarmless s event
      × ((s' : Server B) → step marshal decode s event ≡ ok s' → AreHarmless s' events)

  pub run-GoesOn :
      (s : Server B) (events : List (Event B))
      → IsRunning s
      → AreHarmless s events
      → GoesOn marshal s (run s events)
  unfolding run
  run-GoesOn s [] h k = (s, refl, h, λ v. v)
  run-GoesOn s (event ∷ events) h (harmless, rest) =
      let (s', runs, sound, valid) = step-GoesOn s event h harmless in
      let (s'', runs', sound', valid') = run-GoesOn s' events sound (rest s' runs) in
      (s'', ap (λ o. o >>= λ x. run x events) runs ∙ runs', sound', λ v. valid' (valid v))

  -- A new server survives every sequence of events in which its state machine does not panic and each connection sends
  -- one CONNECT: it never sends on a closed channel nor closes one twice, its map holds open clients under their own
  -- ids, no two clients write to one connection, and all that it has proposed to Raft are entries whose changeset
  -- Validate accepts.
  pub new_node-survives :
      (m : Machine) (events : List (Event B))
      → AreHarmless (new_node m) events
      → (s : Server B) × (run (new_node m) events ≡ ok s)
        × IsRunning s
        × AreValid marshal s.proposals
  unfolding new_node
  new_node-survives m events k =
      let start : IsRunning {B = B} (new_node m) = record {
        registry = tt;
        living = λ p a e. absurd (none-some e);
        owned = λ p q a e e'. absurd (none-some e);
        writers = λ a b low low' e. absurd (omega (arith, low));
        unused = λ p a e low same. omega (arith, low);
      } in
      let (s, runs, sound, valid) = run-GoesOn (new_node m) events start k in
      (s, runs, sound, valid tt)
