-- ===== src/Examples/Editors.antt =====
-- Two clients on one server (internal/server/websocket.go).
use claude_ds_project.Base.{
  ℕ, zero, suc, sym, ap, set, ◌<◌, ◌≡◌, ◌≢◌, ◌⊎◌, refl, Bool, List, [], ◌∷◌, none, some, true,
  false, arith,
}
use Prim.Native.String.{String}
use claude_ds_project.GoInt
use claude_ds_project.Outcome.{ok, panic, ◌>>=◌}
use claude_ds_project.Ot.Apply.{apply_changeset}
use claude_ds_project.Fsm.{RaftLogEntry, ApplyResult, new_machine, revisions_since}
use claude_ds_project.Server.ClientMap.{lookup}
use claude_ds_project.Server.{
  connect, submit, ack, broadcast, WsClient, Heap, enqueue, Pump, reading, held, Server, new_node,
  on_commit, handle_connect, take_at, notified, broadcast_all, send, register, connect_reply, Event,
  received, committed, disconnected, step,
}
use claude_ds_project.Server.Sending.{IsRegistered}
use claude_ds_project.Server.Delivery.{IsOffered, notified-informs}
use claude_ds_project.Server.Survival.{IsRunning, AreValid}
use claude_ds_project.Server.Runs.{run, AreHarmless, new_node-survives}
use claude_ds_project.Server.Reconnect.{disconnected-silences}
use claude_ds_project.Examples.Editing.{abc, prefixed}
use claude_ds_project.Examples.Document.{first_entry, after_first, first_result, first_run}

abbrev client : String → ℕ → WsClient
client k p = record { id = k; conn = p; outbox = []; closed = false }

abbrev heap_of : String → String → Heap
heap_of k j zero = client k 0
heap_of k j (suc a) = client j 1

abbrev pumps_of : ℕ → Pump
pumps_of zero = reading (some 0)
pumps_of (suc zero) = reading (some 1)
pumps_of (suc (suc p)) = reading none

-- "ann" and "bob" are connected; entries stand for themselves in the log.
abbrev server : Server RaftLogEntry
server = record {
  is_leader = true;
  leader_addr = "";
  machine = new_machine abc;
  heap = heap_of "ann" "bob";
  next = 2;
  clients = ("ann", 0) ∷ ("bob", 1) ∷ [];
  pumps = pumps_of;
  proposals = [];
  callbacks = [];
}

bob_ann : lookup "ann" (("bob", 1) ∷ []) ≡ none
unfolding lookup
bob_ann = refl

bob_listed : lookup "bob" [] ≡ none
unfolding lookup
bob_listed = refl

server-IsRegistered : IsRegistered server.heap server.next server.clients
server-IsRegistered = (refl, refl, omega arith, bob_ann, (refl, refl, omega arith, bob_listed, tt))

-- The callback of the first entry of "ann" waits, behind one of another entry.
abbrev informing : Server RaftLogEntry
informing = record server {
  machine = after_first;
  callbacks = record first_result { client_id = "eve" } ∷ first_result ∷ [];
}

taken :
    take_at 1 informing.callbacks
    ≡ some (first_result, record first_result { client_id = "eve" } ∷ [])
unfolding take_at
taken = refl

notified-informs_example :
    (step some some server (committed first_entry)
      ≡ ok (record server { machine = after_first; callbacks = first_result ∷ [] }))
    × (heap' : Heap) × (step some some informing (notified 1)
        ≡ ok (record informing {
          callbacks = record first_result { client_id = "eve" } ∷ [];
          heap = heap';
        }))
    × ((a : ℕ)
        → lookup "ann" informing.clients ≡ some a
        → IsOffered (informing.heap a) (ack 1) (heap' a))
    × ((k : String) (a : ℕ)
        → lookup k informing.clients ≡ some a
        → k ≢ "ann"
        → ((first_result.is_duplicate ≡ true) × (heap' a ≡ informing.heap a))
          ⊎ (IsOffered (informing.heap a) (broadcast prefixed 1) (heap' a)
              × (apply_changeset server.machine.head_text prefixed ≡ ok after_first.head_text)))
notified-informs_example =
    notified-informs some some server informing first_entry after_first first_entry first_result 1
      (record first_result { client_id = "eve" } ∷ []) refl first_run server-IsRegistered taken

-- The callbacks of two entries run in the other order: the later result reaches "bob" first.
abbrev second_result : ApplyResult
second_result = record first_result { new_rev = 2 }

abbrev two_waiting : Server RaftLogEntry
two_waiting = record server { callbacks = first_result ∷ second_result ∷ [] }

out_of_order :
    (run some some two_waiting (notified 1 ∷ notified 0 ∷ []) >>= λ s. ok (s.heap 1).outbox)
    ≡ ok (broadcast prefixed 2 ∷ broadcast prefixed 1 ∷ [])
unfolding run take_at on_commit broadcast_all send enqueue lookup set
out_of_order = refl

-- A second CONNECT on one connection leaves two clients, with open channels, that write to it.
abbrev connecting : Event RaftLogEntry
connecting = received 0 (connect (record { client_id = "ann"; last_known_rev = 0 }))

abbrev writer : Server RaftLogEntry → ℕ → ℕ × Bool
writer s a = ((s.heap a).conn, (s.heap a).closed)

two_writers :
    (run some some (new_node (new_machine abc)) (connecting ∷ connecting ∷ []) >>= λ s.
    ok (writer s 0 ∷ writer s 1 ∷ []))
    ≡ ok ((0, false) ∷ (0, false) ∷ [])
unfolding run new_node handle_connect register connect_reply revisions_since new_machine GoInt.le
    GoInt.lt send enqueue set
two_writers = refl

-- The client "ann" sends a changeset, with its encoding as a log entry, and leaves.
abbrev events : List (Event RaftLogEntry)
events =
    received 0 (connect (record { client_id = "ann"; last_known_rev = 0 }))
    ∷ received 0 (
        submit
          (record { client_id = "ann"; submission_id = 1; base_rev = 0; changeset = prefixed }))
    ∷ disconnected 0
    ∷ []

nothing_missed : revisions_since (new_machine abc) 0 ≡ ok []
unfolding revisions_since new_machine GoInt.le GoInt.lt
nothing_missed = refl

events-AreHarmless : AreHarmless some some (new_node (new_machine abc)) events
unfolding new_node
events-AreHarmless = ((refl, [], nothing_missed), λ s h. (tt, λ t k. (tt, λ u l. tt)))

new_node-survives_example :
    (s : Server RaftLogEntry) × (run some some (new_node (new_machine abc)) events ≡ ok s)
    × IsRunning s
    × AreValid some s.proposals
new_node-survives_example = new_node-survives some some (new_machine abc) events events-AreHarmless

-- "ann" is connected twice, by the connections 0 and, later, 1.
abbrev twice : Server RaftLogEntry
twice = record server { heap = heap_of "ann" "ann"; clients = ("ann", 1) ∷ [] }

ann_listed : lookup "ann" [] ≡ none
unfolding lookup
ann_listed = refl

not_held : {a : ℕ} → none ≢ some a
not_held h = cc

living : (p a : ℕ) → held (pumps_of p) ≡ some a → (a < 2) × ((heap_of "ann" "ann" a).closed ≡ false)
living zero a h = let e : a ≡ 0 = cc in rw e (omega arith, refl)
living (suc zero) a h = let e : a ≡ 1 = cc in rw e (omega arith, refl)
living (suc (suc p)) a h = absurd (not_held h)

owner : (p a : ℕ) → held (pumps_of p) ≡ some a → p ≡ a
owner zero a h = cc
owner (suc zero) a h = cc
owner (suc (suc p)) a h = absurd (not_held h)

own_writer :
    (a b : ℕ) → a < 2 → b < 2 → (heap_of "ann" "ann" a).conn ≡ (heap_of "ann" "ann" b).conn → a ≡ b
own_writer zero zero h k e = refl
own_writer zero (suc b) h k e = absurd (omega (arith, e))
own_writer (suc a) zero h k e = absurd (omega (arith, e))
own_writer (suc a) (suc b) h k e = omega arith

not_writer : (p a : ℕ) → pumps_of p ≡ reading none → a < 2 → (heap_of "ann" "ann" a).conn ≢ p
not_writer zero a h low = let f = ap held h in absurd (not_held (sym f))
not_writer (suc zero) a h low = let f = ap held h in absurd (not_held (sym f))
not_writer (suc (suc p)) zero h low = λ e. omega (arith, e)
not_writer (suc (suc p)) (suc a) h low = λ e. omega (arith, e)

twice-IsRunning : IsRunning twice
twice-IsRunning = record {
  registry = (refl, refl, omega arith, ann_listed, tt);
  living = living;
  owned = λ p q a h h'. let e = owner p a h in let f = owner q a h' in cc;
  writers = own_writer;
  unused = not_writer;
}

two_connections : zero ≢ suc zero
two_connections h = omega (arith, h)

disconnected-silences_example :
    (s' : Server RaftLogEntry) × (step some some twice (disconnected 0) ≡ ok s')
    × (s'.pumps 1 ≡ reading (some 1))
    × ((s'.heap 1).closed ≡ false)
    × ((r : ApplyResult)
        → (heap' : Heap) × (on_commit s' r ≡ ok (record s' { heap = heap' }))
          × (heap' 1 ≡ s'.heap 1))
disconnected-silences_example =
    disconnected-silences some some twice 0 1 0 1 twice-IsRunning two_connections refl refl refl

-- A revision of -1 panics.
negative_rev_panics :
    handle_connect server 0 (record { client_id = "eve"; last_known_rev = GoInt.neg 1 }) ≡ panic
unfolding handle_connect register connect_reply revisions_since new_machine GoInt.le GoInt.lt
negative_rev_panics = refl
