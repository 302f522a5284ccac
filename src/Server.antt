-- ===== src/Server.antt =====
-- internal/server/websocket.go: the server's Node, which joins a Raft node, the document state machine and
-- the clients' connections. Every pointer to a wsClient is an address of the table `heap`, since a connection
-- and the map of clients share it; a connection (a run of readPump) is a number.
pub mod ClientMap
pub mod Sending
pub mod Broadcast
pub mod Delivery
pub mod Soundness
pub mod Survival
pub mod Runs
pub mod Reconnect
use claude_ds_project.Base.{
  set, ℕ, zero, suc, ◌+◌, List, [], ◌∷◌, ◌++◌, Option, none, some, Bool, true, false, ltb,
  if◌then◌else◌, length,
}
use Prim.Native.String.{String}
use text.Mathlib.Text.{◌==◌ as str_eq}
use claude_ds_project.Outcome.{Error, Outcome, ok, err, panic, diverges, ◌>>=◌}
use claude_ds_project.Ot.Changeset.{Text, Changeset, validate}
use claude_ds_project.Fsm.{
  Machine, RaftLogEntry, RevisionRecord, ApplyResult, apply, revisions_since,
}
use claude_ds_project.Server.ClientMap.{Registry, lookup, remove, insert_at}

-- ConnectMsg
pub record ConnectMsg : Type 0 where
  pub client_id : String
  pub last_known_rev : ℕ

-- SubmitMsg
pub record SubmitMsg : Type 0 where
  pub client_id : String
  pub submission_id : ℕ
  pub base_rev : ℕ
  pub changeset : Changeset

-- What the envelope and the payload of a message of a client decode to; `invalid` is any that does not
-- decode, or is of another type.
pub data Packet : Type 0 where
  connect : ConnectMsg → Packet
  submit : SubmitMsg → Packet
  invalid : Packet

-- What the message of an ErrorMsg says.
pub data Reason : Type 0 where
  invalid_changeset : Error → Reason
  marshal_error : Reason
  apply_failed : Reason

-- The messages of the server, each with the fields of its struct.
pub data Message : Type 0 where
  connect_ack : Text → ℕ → List RevisionRecord → Message
  ack : ℕ → Message
  broadcast : Changeset → ℕ → Message
  redirect : String → Message
  error : ℕ → Reason → Message

-- wsClient: `conn` is the connection that its writePump writes to, `outbox` what waits in sendCh, and `closed`
-- whether the channel is closed.
pub record WsClient : Type 0 where
  pub id : String
  pub conn : ℕ
  pub outbox : List Message
  pub closed : Bool

abbrev pub Heap : Type 0
Heap = ℕ → WsClient

abbrev pub capacity : ℕ
capacity = 256

unfoldable pub enqueue : WsClient → Message → WsClient
enqueue c message =
    if ltb (length c.outbox) capacity then record c { outbox = c.outbox ++ (message ∷ []) } else c

-- send: a message is dropped when the channel is full; on a closed channel the program panics.
unfoldable pub send : Heap → ℕ → Message → Outcome Heap
unfolding enqueue
send heap a message = if (heap a).closed then panic else ok (set a (enqueue (heap a) message) heap)

-- readPump between two messages, with its `client`; while it waits for the future of a submission; and
-- after its end.
pub data Pump : Type 0 where
  reading : Option ℕ → Pump
  waiting : ℕ → Pump
  ended : Pump

-- The variable `client` of readPump.
abbrev pub held : Pump → Option ℕ
held (reading c) = c
held (waiting a) = some a
held ended = none

-- Node, with what IsLeader and LeaderAddr answer, the connections, the bytes given to Raft.Apply, and the
-- goroutines of Apply that are still to run onCommit.
pub record Server (B : Type 0) : Type 0 where
  pub is_leader : Bool
  pub leader_addr : String
  pub machine : Machine
  pub heap : Heap
  pub next : ℕ
  pub clients : Registry
  pub pumps : ℕ → Pump
  pub proposals : List B
  pub callbacks : List ApplyResult

-- How handleSubmit goes on: with an answer, or with a proposal whose future it waits for.
pub data Submitted (B : Type 0) : Type 0 where
  answers : Message → Submitted B
  proposes : B → Submitted B

abbrev pub entry_of : SubmitMsg → RaftLogEntry
entry_of msg = record {
  client_id = msg.client_id;
  submission_id = msg.submission_id;
  base_rev = msg.base_rev;
  changeset = msg.changeset;
}

-- The loop of the broadcast, over the map of clients.
unfoldable pub broadcast_all : String → Message → Registry → Heap → Outcome Heap
unfolding send
broadcast_all author message [] heap = ok heap
broadcast_all author message ((k, a) ∷ m) heap =
    let sent = send heap a message >>= broadcast_all author message m in
    let skipped = broadcast_all author message m heap in if str_eq k author then skipped else sent

abbrev pub ack_origin : Option ℕ → ℕ → Heap → Outcome Heap
ack_origin none rev heap = ok heap
ack_origin (some a) rev heap = send heap a (ack rev)

-- writePump takes the next message.
abbrev behind : List Message → List Message
behind [] = []
behind (message ∷ rest) = rest

unfoldable pub drain : WsClient → WsClient
drain c = record c { outbox = behind c.outbox }

-- One element of a list and the others.
abbrev with_other :
    ApplyResult → Option (ApplyResult × List ApplyResult) → Option (ApplyResult × List ApplyResult)
with_other r none = none
with_other r (some (x, rest)) = some (x, r ∷ rest)

unfoldable pub take_at : ℕ → List ApplyResult → Option (ApplyResult × List ApplyResult)
take_at i [] = none
take_at zero (r ∷ rs) = some (r, rs)
take_at (suc i) (r ∷ rs) = with_other r (take_at i rs)

pub data Event (B : Type 0) : Type 0 where
  received : ℕ → Packet → Event B
  resolved : ℕ → Bool → Event B
  disconnected : ℕ → Event B
  committed : B → Event B
  notified : ℕ → Event B
  written : ℕ → Event B
  leader_changed : Bool → String → Event B

module _ {B : Type 0} where
  -- NewNode
  unfoldable pub new_node : Machine → Server B
  new_node m = record {
    is_leader = false;
    leader_addr = "";
    machine = m;
    heap = λ a. record { id = ""; conn = 0; outbox = []; closed = false };
    next = 0;
    clients = [];
    pumps = λ p. reading none;
    proposals = [];
    callbacks = [];
  }

  -- A new wsClient of a connection under the client's id.
  unfoldable pub register : Server B → ℕ → String → Server B
  unfolding set
  register s p k = record s {
    heap = set s.next (record { id = k; conn = p; outbox = []; closed = false }) s.heap;
    next = suc s.next;
    clients = insert_at k s.next s.clients;
  }

  -- The redirection, or the state of the document with what the client has missed.
  unfoldable pub connect_reply : Server B → ConnectMsg → Outcome Message
  connect_reply s msg =
      let state = revisions_since s.machine msg.last_known_rev >>= λ missed.
      ok (connect_ack s.machine.head_text s.machine.head_rev missed) in
      if s.is_leader
      then state
      else if str_eq s.leader_addr ""
      then state
      else ok (redirect s.leader_addr)

  abbrev pub reply : Server B → ℕ → Message → Outcome (Server B)
  reply s a message = send s.heap a message >>= λ heap. ok (record s { heap = heap })

  -- handleConnect on the connection `p`; the new client has the address `s.next`.
  unfoldable pub handle_connect : Server B → ℕ → ConnectMsg → Outcome (Server B)
  unfolding register send
  handle_connect s p msg =
      let s' = register s p msg.client_id in
      connect_reply s' msg >>= λ message. reply s' s.next message

  abbrev pub encoded : Option B → Submitted B
  encoded none = answers (error 500 marshal_error)
  encoded (some b) = proposes b

  abbrev pub validated : Outcome (Unit {0}) → Option B → Outcome (Submitted B)
  validated (ok u) entry = ok (encoded entry)
  validated (err x) entry = ok (answers (error 400 (invalid_changeset x)))
  validated panic entry = panic
  validated diverges entry = diverges

  -- handleSubmit up to Raft.Apply; `marshal` is fsm.MarshalEntry.
  unfoldable pub check_submit :
      (RaftLogEntry → Option B) → Server B → SubmitMsg → Outcome (Submitted B)
  unfolding entry_of
  check_submit marshal s msg =
      if s.is_leader
      then validated (validate msg.changeset) (marshal (entry_of msg))
      else ok (answers (redirect s.leader_addr))

  abbrev pub set_pump : Server B → ℕ → Pump → Server B
  set_pump s p pump = record s { pumps = set p pump s.pumps }

  abbrev pub proceed : Server B → ℕ → ℕ → Submitted B → Outcome (Server B)
  proceed s p a (answers message) = reply s a message
  proceed s p a (proposes b) =
      ok (record s { proposals = s.proposals ++ (b ∷ []); pumps = set p (waiting a) s.pumps })

  -- The body of the loop of readPump. A pump that waits, or has ended, reads nothing.
  unfoldable pub receive_at :
      (RaftLogEntry → Option B) → Server B → ℕ → Pump → Packet → Outcome (Server B)
  unfolding handle_connect check_submit
  receive_at marshal s p (reading c) (connect msg) =
      handle_connect s p msg >>= λ s'. ok (set_pump s' p (reading (some s.next)))
  receive_at marshal s p (reading none) (submit msg) = ok s
  receive_at marshal s p (reading (some a)) (submit msg) =
      check_submit marshal s msg >>= proceed s p a
  receive_at marshal s p (reading c) invalid = ok s
  receive_at marshal s p (waiting a) packet = ok s
  receive_at marshal s p ended packet = ok s

  -- The end of handleSubmit, when its future is answered with success or an error.
  unfoldable pub resolve_at : Server B → ℕ → Pump → Bool → Outcome (Server B)
  unfolding send
  resolve_at s p (waiting a) true = ok (set_pump s p (reading (some a)))
  resolve_at s p (waiting a) false =
      reply s a (error 500 apply_failed) >>= λ s'. ok (set_pump s' p (reading (some a)))
  resolve_at s p (reading c) answer = ok s
  resolve_at s p ended answer = ok s

  -- The deferred end of readPump: removeClient, and the channel is closed.
  unfoldable pub disconnect_at : Server B → ℕ → Pump → Outcome (Server B)
  unfolding set
  disconnect_at s p (reading none) = ok (set_pump s p ended)
  disconnect_at s p (reading (some a)) =
      let s' = record s { clients = remove (s.heap a).id s.clients } in
      if (s.heap a).closed
      then panic
      else ok (
          set_pump (record s' { heap = set a (record (s.heap a) { closed = true }) s.heap }) p
            ended)
  disconnect_at s p (waiting a) = ok s
  disconnect_at s p ended = ok s

  -- onCommit
  unfoldable pub on_commit : Server B → ApplyResult → Outcome (Server B)
  unfolding broadcast_all lookup
  on_commit s r = ack_origin (lookup r.client_id s.clients) r.new_rev s.heap >>= λ heap.
      (if r.is_duplicate
        then ok heap
        else broadcast_all r.client_id (broadcast r.c_prime r.new_rev) s.clients heap)
      >>= λ heap'. ok (record s { heap = heap' })

  -- Apply has run: for a result that is not nil it has started a goroutine that is to run onCommit.
  abbrev pub result_of : Server B → Machine × Option ApplyResult → Outcome (Server B)
  result_of s (m, none) = ok (record s { machine = m })
  result_of s (m, some r) = ok (record s { machine = m; callbacks = s.callbacks ++ (r ∷ []) })

  -- One of these goroutines runs: no order among them is promised.
  abbrev pub called_back : Server B → Option (ApplyResult × List ApplyResult) → Outcome (Server B)
  called_back s none = ok s
  called_back s (some (r, rest)) = on_commit (record s { callbacks = rest }) r

  -- One event. A committed entry is applied by the state machine; its callback is an event of its own.
  unfoldable pub step :
      (RaftLogEntry → Option B)
      → (B → Option RaftLogEntry)
      → Server B
      → Event B
      → Outcome (Server B)
  unfolding receive_at resolve_at disconnect_at on_commit drain take_at
  step marshal decode s (received p packet) = receive_at marshal s p (s.pumps p) packet
  step marshal decode s (resolved p answer) = resolve_at s p (s.pumps p) answer
  step marshal decode s (disconnected p) = disconnect_at s p (s.pumps p)
  step marshal decode s (committed b) = apply decode s.machine b >>= result_of s
  step marshal decode s (notified i) = called_back s (take_at i s.callbacks)
  step marshal decode s (written a) = ok (record s { heap = set a (drain (s.heap a)) s.heap })
  step marshal decode s (leader_changed is_leader addr) =
      ok (record s { is_leader = is_leader; leader_addr = addr })
