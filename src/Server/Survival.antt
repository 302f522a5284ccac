-- ===== src/Server/Survival.antt =====
-- One message, answer of Raft or end of a connection, on a server with the invariant
-- (internal/server/websocket.go).
use claude_ds_project.Base.{
  set, set-same, ℕ, ◌≡◌, ◌≢◌, inl, inr, refl, sym, ◌∙◌, ap, List, [], ◌∷◌, ◌++◌, Option, none, some,
  Bool, true, false, Bool-cases,
}
use text.Mathlib.Text.{◌==◌ as str_eq}
use claude_ds_project.Outcome.{Outcome, ok, ◌>>=◌}
use claude_ds_project.Ot.Changeset.{validate}
use claude_ds_project.Ot.Changeset.Returns.{validate-returns}
use claude_ds_project.Fsm.{RaftLogEntry, RevisionRecord, revisions_since}
use claude_ds_project.Server.ClientMap.{remove}
use claude_ds_project.Server.{
  ConnectMsg, SubmitMsg, Packet, connect, submit, invalid, Message, connect_ack, redirect, error,
  invalid_changeset, apply_failed, Heap, enqueue, Pump, reading, waiting, ended, held, Server,
  register, connect_reply, reply, handle_connect, Submitted, answers, proposes, entry_of, encoded,
  check_submit, set_pump, proceed, receive_at, resolve_at, disconnect_at,
}
use claude_ds_project.Server.Sending.{send-open}
use claude_ds_project.Server.Soundness.{
  IsSound, IsSound-Keeps, held-set, idle-set, IsSound-connect, IsSound-disconnect,
}

abbrev pub IsRunning : {B : Type 0} → Server B → Type 0
IsRunning s = IsSound s.heap s.next s.clients s.pumps

module _ {B : Type 0} (marshal : RaftLogEntry → Option B) where
  -- Every proposal is an entry with a changeset that Validate accepts.
  abbrev pub AreValid : List B → Type 0
  AreValid [] = Unit
  AreValid (b ∷ bs) =
      ((e : RaftLogEntry) × (marshal e ≡ some b) × (validate e.changeset ≡ ok tt)) × AreValid bs

  AreValid-append :
      (bs : List B) (b : B) → AreValid bs → AreValid (b ∷ []) → AreValid (bs ++ (b ∷ []))
  AreValid-append [] b h k = k
  AreValid-append (x ∷ bs) b h k = (h.0, AreValid-append bs b h.1 k)

  -- The server goes on, with its invariant, and with valid proposals if they were.
  abbrev pub GoesOn : Server B → Outcome (Server B) → Type 0
  GoesOn s o =
      (s' : Server B) × (o ≡ ok s') × IsRunning s' × (AreValid s.proposals → AreValid s'.proposals)

  -- A message to a client that a connection holds, which then holds it still.
  reply-GoesOn :
      (s : Server B) (a : ℕ) (message : Message) (p : ℕ) (pump : Pump)
      → IsRunning s
      → (s.heap a).closed ≡ false
      → held pump ≡ held (s.pumps p)
      → pump ≢ reading none
      → GoesOn s (reply s a message >>= λ s'. ok (set_pump s' p pump))
  reply-GoesOn s a message p pump h living same busy =
      let (sends, keeps) = send-open s.heap a message living in
      let heap' : Heap = set a (enqueue (s.heap a) message) s.heap in
      (
        record s { heap = heap'; pumps = set p pump s.pumps },
        rw sends refl,
        IsSound-Keeps keeps (held-set s.pumps p pump same) (idle-set s.pumps p pump busy) h,
        λ v. v,
      )

  connect_reply-returns :
      (s : Server B) (msg : ConnectMsg) (missed : List RevisionRecord)
      → revisions_since s.machine msg.last_known_rev ≡ ok missed
      → (message : Message) × (connect_reply s msg ≡ ok message)
  unfolding connect_reply
  connect_reply-returns s msg missed known = elim (Bool-cases s.is_leader) [
    | inl leads ↦
        (connect_ack s.machine.head_text s.machine.head_rev missed, rw (leads, known) refl)
    | inr follows ↦ elim (Bool-cases (str_eq s.leader_addr "")) [
      | inl unknown_leader ↦ (
        connect_ack s.machine.head_text s.machine.head_rev missed,
        rw (follows, unknown_leader, known) refl,
      )
      | inr known_leader ↦ (redirect s.leader_addr, rw (follows, known_leader) refl)
    ]
  ]

  handle_connect-GoesOn :
      (s : Server B) (p : ℕ) (msg : ConnectMsg) (missed : List RevisionRecord)
      → IsRunning s
      → s.pumps p ≡ reading none
      → revisions_since s.machine msg.last_known_rev ≡ ok missed
      → GoesOn s (handle_connect s p msg >>= λ s'. ok (set_pump s' p (reading (some s.next))))
  unfolding handle_connect register
  handle_connect-GoesOn s p msg missed h idle known =
      let (message, answers_) =
        connect_reply-returns (register s p msg.client_id) msg missed known in
      let s' : Server B = register s p msg.client_id in
      let (sends, keeps) = send-open s'.heap s.next message (
        ap (λ c. c.closed)
          (set-same s.next (record { id = msg.client_id; conn = p; outbox = []; closed = false })
            s.heap)) in
      (
        record s' {
          heap = set s.next (enqueue (s'.heap s.next) message) s'.heap;
          pumps = set p (reading (some s.next)) s.pumps;
        },
        rw (answers_, sends) refl,
        IsSound-Keeps keeps (λ _. refl) (λ _ e. e) (IsSound-connect h p msg.client_id idle),
        λ v. v,
      )

  -- What handleSubmit proposes is an entry with a valid changeset, and it proposes only on the leader.
  record IsChecked (s : Server B) (msg : SubmitMsg) (x : Submitted B) : Type 0 where
    returns : check_submit marshal s msg ≡ ok x
    on_leader : (b : B) → x ≡ proposes b → s.is_leader ≡ true
    valid : (b : B) → x ≡ proposes b → AreValid (b ∷ [])

  check_submit-IsChecked : (s : Server B) (msg : SubmitMsg) → (x : Submitted B) × IsChecked s msg x
  unfolding check_submit
  check_submit-IsChecked s msg = elim (Bool-cases s.is_leader) [
    | inr follows ↦ (
      answers (redirect s.leader_addr),
      record { returns = rw follows refl; on_leader = λ b e. cc; valid = λ b e. cc },
    )
    | inl leads ↦ elim (validate-returns msg.changeset) [
      | inr bad ↦ (
        answers (error 400 (invalid_changeset bad.0)),
        record { returns = rw (leads, bad.1) refl; on_leader = λ b e. cc; valid = λ b e. cc },
      )
      | inl good ↦ (
        encoded (marshal (entry_of msg)),
        record {
          returns = rw (leads, good.1) refl;
          on_leader = λ b e. leads;
          valid = λ b e. ((entry_of msg, encoded_some (marshal (entry_of msg)) b e, good.1), tt);
        },
      )
    ]
  ]
    where
      encoded_some : (o : Option B) (b : B) → encoded o ≡ proposes b → o ≡ some b
      encoded_some none b e = cc
      encoded_some (some x) b e = cc

  proceed-GoesOn :
      (s : Server B) (p a : ℕ) (x : Submitted B)
      → IsRunning s
      → s.pumps p ≡ reading (some a)
      → ((b : B) → x ≡ proposes b → AreValid (b ∷ []))
      → GoesOn s (proceed s p a x)
  proceed-GoesOn s p a (answers message) h at_p valid =
      let (sends, keeps) = send-open s.heap a message (h.living p a (ap held at_p)).1 in
      (
        record s { heap = set a (enqueue (s.heap a) message) s.heap },
        rw sends refl,
        IsSound-Keeps keeps (λ _. refl) (λ _ e. e) h,
        λ v. v,
      )
  proceed-GoesOn s p a (proposes b) h at_p valid = (
    record s { proposals = s.proposals ++ (b ∷ []); pumps = set p (waiting a) s.pumps },
    refl,
    IsSound-Keeps (record { ids = λ _. refl; channels = λ _. refl; conns = λ _. refl })
        (held-set s.pumps p (waiting a) (sym (ap held at_p)))
        (idle-set s.pumps p (waiting a) (λ f. cc)) h,
    λ v. AreValid-append s.proposals b v (valid b refl),
  )

  -- A message of a client that the state machine does not panic on, and the first CONNECT of its connection.
  abbrev pub IsHarmlessPacket : Server B → ℕ → Packet → Type 0
  IsHarmlessPacket s p (connect msg) =
      (held (s.pumps p) ≡ none)
      × (missed : List RevisionRecord) × (revisions_since s.machine msg.last_known_rev ≡ ok missed)
  IsHarmlessPacket s p (submit msg) = Unit
  IsHarmlessPacket s p invalid = Unit

  pub receive-GoesOn :
      (s : Server B) (p : ℕ) (pump : Pump) (packet : Packet)
      → IsRunning s
      → s.pumps p ≡ pump
      → IsHarmlessPacket s p packet
      → GoesOn s (receive_at marshal s p pump packet)
  unfolding receive_at
  receive-GoesOn s p (reading none) (connect msg) h e (idle, missed, known) =
      handle_connect-GoesOn s p msg missed h e known
  receive-GoesOn s p (reading (some a)) (connect msg) h e (idle, missed, known) =
      absurd (let f = sym idle ∙ ap held e in none_not f)
    where
      none_not : {a : ℕ} → none ≢ some a
      none_not h = cc
  receive-GoesOn s p (reading none) (submit msg) h e k = (s, refl, h, λ v. v)
  receive-GoesOn s p (reading (some a)) (submit msg) h e k =
      let (x, checked) = check_submit-IsChecked s msg in
      let (s', runs, sound, valid) = proceed-GoesOn s p a x h e checked.valid in
      (s', ap (λ o. o >>= proceed s p a) checked.returns ∙ runs, sound, valid)
  receive-GoesOn s p (reading c) invalid h e k = (s, refl, h, λ v. v)
  receive-GoesOn s p (waiting a) packet h e k = (s, refl, h, λ v. v)
  receive-GoesOn s p ended packet h e k = (s, refl, h, λ v. v)

  pub resolve-GoesOn :
      (s : Server B) (p : ℕ) (pump : Pump) (answer : Bool)
      → IsRunning s
      → s.pumps p ≡ pump
      → GoesOn s (resolve_at s p pump answer)
  unfolding resolve_at
  resolve-GoesOn s p (waiting a) true h e = (
    set_pump s p (reading (some a)),
    refl,
    IsSound-Keeps (record { ids = λ _. refl; channels = λ _. refl; conns = λ _. refl })
        (held-set s.pumps p (reading (some a)) (sym (ap held e)))
        (idle-set s.pumps p (reading (some a)) (λ f. cc)) h,
    λ v. v,
  )
  resolve-GoesOn s p (waiting a) false h e =
      reply-GoesOn s a (error 500 apply_failed) p (reading (some a)) h (h.living p a (ap held e)).1
        (sym (ap held e)) (λ f. cc)
  resolve-GoesOn s p (reading c) answer h e = (s, refl, h, λ v. v)
  resolve-GoesOn s p ended answer h e = (s, refl, h, λ v. v)

  pub disconnect-GoesOn :
      (s : Server B) (p : ℕ) (pump : Pump)
      → IsRunning s
      → s.pumps p ≡ pump
      → GoesOn s (disconnect_at s p pump)
  unfolding disconnect_at
  disconnect-GoesOn s p (reading none) h e = (
    set_pump s p ended,
    refl,
    IsSound-Keeps (record { ids = λ _. refl; channels = λ _. refl; conns = λ _. refl })
        (held-set s.pumps p ended (sym (ap held e))) (idle-set s.pumps p ended (λ f. cc)) h,
    λ v. v,
  )
  disconnect-GoesOn s p (reading (some a)) h e = (
    record s {
      clients = remove (s.heap a).id s.clients;
      heap = set a (record (s.heap a) { closed = true }) s.heap;
      pumps = set p ended s.pumps;
    },
    rw (h.living p a (ap held e)).1 refl,
    IsSound-disconnect h p a (ap held e),
    λ v. v,
  )
  disconnect-GoesOn s p (waiting a) h e = (s, refl, h, λ v. v)
  disconnect-GoesOn s p ended h e = (s, refl, h, λ v. v)
