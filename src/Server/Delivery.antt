-- ===== src/Server/Delivery.antt =====
-- onCommit of internal/server/websocket.go, and the callback of a committed entry.
use claude_ds_project.Base.{
  set, set-same, set-other, ℕ, ◌<◌, ◌≤◌, List, [], ◌∷◌, ◌++◌, length, ltb, ltb→lt, ltb→le, ◌≡◌, ◌≢◌,
  ◌⊎◌, inl, inr, refl, sym, ◌∙◌, ap, Option, none, some, true, false, Bool-cases,
}
use Prim.Native.String.{String}
use claude_ds_project.Outcome.{ok, ◌>>=◌}
use claude_ds_project.Ot.Apply.{apply_changeset}
use claude_ds_project.Fsm.{
  Machine, RaftLogEntry, ApplyResult, apply_entry, commit, duplicate_result, apply,
}
use claude_ds_project.Fsm.Duplicates.{Ends, repeated, refused, committed, apply_entry-Ends}
use claude_ds_project.Server.ClientMap.{Registry, lookup}
use claude_ds_project.Server.{
  Message, ack, broadcast, WsClient, Heap, enqueue, capacity, Server, ack_origin, on_commit,
  result_of, called_back, take_at, committed as committed_entry, notified, step,
}
use claude_ds_project.Server.Sending.{
  Keeps, Keeps-trans, send-open, IsRegistered, IsRegistered-client, IsRegistered-Keeps,
}
use claude_ds_project.Server.Broadcast.{none-some, broadcast_all-IsDelivered}

-- The acknowledgement reaches the client of the map that has the id, if there is one.
ack_origin-sends :
    (heap : Heap) (o : Option ℕ) (rev : ℕ)
    → ((a : ℕ) → o ≡ some a → (heap a).closed ≡ false)
    → (heap' : Heap) × (ack_origin o rev heap ≡ ok heap')
      × Keeps heap heap'
      × ((a : ℕ) → o ≡ some a → heap' a ≡ enqueue (heap a) (ack rev))
      × ((a : ℕ) → o ≢ some a → heap' a ≡ heap a)
ack_origin-sends heap none rev h = (
  heap,
  refl,
  record { ids = λ _. refl; channels = λ _. refl; conns = λ _. refl },
  λ a found. absurd (none-some refl found),
  λ _ _. refl,
)
ack_origin-sends heap (some b) rev h =
    let (sends, keeps) = send-open heap b (ack rev) (h b refl) in
    (
      set b (enqueue (heap b) (ack rev)) heap,
      sends,
      keeps,
      λ a found. let e : a ≡ b = cc in rw e (set-same b (enqueue (heap b) (ack rev)) heap),
      λ a other. set-other b (enqueue (heap b) (ack rev)) heap a (λ e. other (ap some (sym e))),
    )

-- Who is told of a result: the author by an acknowledgement, the others of the map by a broadcast.
pub record IsInformed (r : ApplyResult) (m : Registry) (heap heap' : Heap) : Type 0 where
  pub kept : Keeps heap heap'
  pub author : (a : ℕ) → lookup r.client_id m ≡ some a → heap' a ≡ enqueue (heap a) (ack r.new_rev)
  pub others :
      (k : String) (a : ℕ)
      → r.is_duplicate ≡ false
      → lookup k m ≡ some a
      → k ≢ r.client_id
      → heap' a ≡ enqueue (heap a) (broadcast r.c_prime r.new_rev)
  pub silent :
      (a : ℕ)
      → (lookup (heap a).id m ≢ some a) ⊎ ((r.is_duplicate ≡ true) × ((heap a).id ≢ r.client_id))
      → heap' a ≡ heap a

module _ {B : Type 0} (s : Server B) (r : ApplyResult)
    (sound : IsRegistered s.heap s.next s.clients) where
  -- A client that is not the author's own.
  not_author :
      (a : ℕ)
      → (lookup (s.heap a).id s.clients ≢ some a) ⊎ ((s.heap a).id ≢ r.client_id)
      → lookup r.client_id s.clients ≢ some a
  not_author a h found =
      let id = (IsRegistered-client s.heap s.next s.clients r.client_id a sound found).0 in
      elim h [ inl unlisted ↦ unlisted (rw id found) | inr differs ↦ differs id ]

  -- onCommit never meets a closed channel, and informs exactly the clients of the map.
  pub on_commit-IsInformed :
      (heap' : Heap) × (on_commit s r ≡ ok (record s { heap = heap' }))
      × IsInformed r s.clients s.heap heap'
  unfolding on_commit
  on_commit-IsInformed =
      let (mid, acks, keeps, told, untold) =
        ack_origin-sends s.heap (lookup r.client_id s.clients) r.new_rev
          (λ a found. (IsRegistered-client s.heap s.next s.clients r.client_id a sound found).1) in
      elim (Bool-cases r.is_duplicate) [
        | inl dup ↦ (
          mid,
          rw (acks, dup) refl,
          record {
            kept = keeps;
            author = told;
            others = λ k a fresh. let f = sym dup ∙ fresh in cc;
            silent = λ a h. untold a (not_author a (elim h [ inl u ↦ inl u | inr d ↦ inr d.1 ]));
          },
        )
        | inr fresh ↦
            let message = broadcast r.c_prime r.new_rev in
            let (heap', runs, d) =
              broadcast_all-IsDelivered r.client_id message s.clients mid s.next
                (IsRegistered-Keeps s.heap mid s.next s.clients keeps sound) in
            (
              heap',
              rw (acks, fresh, runs) refl,
              record {
                kept = Keeps-trans keeps d.kept;
                author = λ a found.
                    let id =
                      (IsRegistered-client s.heap s.next s.clients r.client_id a sound found).0 in
                    d.others a (inr (keeps.ids a ∙ id)) ∙ told a found;
                others = λ k a _ found differs.
                    let id = (IsRegistered-client s.heap s.next s.clients k a sound found).0 in
                    d.reached k a found differs
                    ∙ ap (λ c. enqueue c message)
                        (untold a (not_author a (inr (λ e. differs (sym id ∙ e)))));
                silent = λ a h. elim h [
                  | inl u ↦ d.others a (inl (rw (keeps.ids a) u)) ∙ untold a (not_author a (inl u))
                  | inr dup ↦ let f = sym fresh ∙ dup.0 in cc
                ];
              },
            )
      ]

-- What the state machine reports of an entry.
pub result_reports :
    (m m' : Machine) (e : RaftLogEntry) (r : ApplyResult)
    → apply_entry m e ≡ ok (m', some r)
    → (r.client_id ≡ e.client_id)
      × (r.new_rev ≡ m'.head_rev)
      × (r.is_duplicate ≡ false → apply_changeset m.head_text r.c_prime ≡ ok m'.head_text)
unfolding commit duplicate_result
result_reports m m' e r h = go (apply_entry-Ends m e h)
  where
    go :
        Ends m e m' (some r)
        → (r.client_id ≡ e.client_id)
          × (r.new_rev ≡ m'.head_rev)
          × (r.is_duplicate ≡ false → apply_changeset m.head_text r.c_prime ≡ ok m'.head_text)
    go (repeated d p q) = let f : r ≡ duplicate_result m e = cc in rw (f, p) (refl, refl, λ n. cc)
    go (refused d p q) = cc
    go (committed c text _ _ applied p q) =
        let f : r ≡ (commit m e c text).1 = cc in rw (f, p) (refl, refl, λ _. applied)

-- send on an open channel: the message is appended while fewer than 256 wait, and is dropped otherwise.
abbrev pub IsOffered : WsClient → Message → WsClient → Type 0
IsOffered c message c' =
    ((length c.outbox < capacity) × (c' ≡ record c { outbox = c.outbox ++ (message ∷ []) }))
    ⊎ ((capacity ≤ length c.outbox) × (c' ≡ c))

enqueue-IsOffered : (c : WsClient) (message : Message) → IsOffered c message (enqueue c message)
unfolding enqueue
enqueue-IsOffered c message = elim (Bool-cases (ltb (length c.outbox) capacity)) [
  | inl room ↦ rw room (inl (ltb→lt (length c.outbox) capacity room, refl))
  | inr full ↦ rw full (inr (ltb→le (length c.outbox) capacity full, refl))
]

apply-decoded :
    {B : Type 0} (decode : B → Option RaftLogEntry) (m : Machine) (b : B) (e : RaftLogEntry)
    → decode b ≡ some e
    → apply decode m b ≡ apply_entry m e
unfolding apply
apply-decoded decode m b e h =
    ap (λ (o : Option RaftLogEntry). elim o [ none ↦ ok (m, none) | some x ↦ apply_entry m x ]) h

-- A committed entry for which the state machine reports a result adds a callback with it. The result is told to whatever
-- clients the map of the server holds when the callback runs, at any later time and behind any other callbacks. It never meets a
-- closed channel. The author is sent an ACK with the revision that the entry made, and every other client
-- a BROADCAST with it and with a changeset that takes the head text before the entry to the one behind it, or
-- nothing for a duplicate; each message is appended while fewer than 256 wait, and is dropped otherwise.
pub notified-informs :
    {B : Type 0} (marshal : RaftLogEntry → Option B) (decode : B → Option RaftLogEntry)
    (s t : Server B) (b : B) (m' : Machine) (e : RaftLogEntry) (r : ApplyResult) (i : ℕ)
    (rest : List ApplyResult)
    → decode b ≡ some e
    → apply_entry s.machine e ≡ ok (m', some r)
    → IsRegistered t.heap t.next t.clients
    → take_at i t.callbacks ≡ some (r, rest)
    → (step marshal decode s (committed_entry b)
        ≡ ok (record s { machine = m'; callbacks = s.callbacks ++ (r ∷ []) }))
      × (heap' : Heap) × (step marshal decode t (notified i)
          ≡ ok (record t { callbacks = rest; heap = heap' }))
      × ((a : ℕ)
          → lookup e.client_id t.clients ≡ some a
          → IsOffered (t.heap a) (ack m'.head_rev) (heap' a))
      × ((k : String) (a : ℕ)
          → lookup k t.clients ≡ some a
          → k ≢ e.client_id
          → ((r.is_duplicate ≡ true) × (heap' a ≡ t.heap a))
            ⊎ (IsOffered (t.heap a) (broadcast r.c_prime m'.head_rev) (heap' a)
                × (apply_changeset s.machine.head_text r.c_prime ≡ ok m'.head_text)))
unfolding step
notified-informs marshal decode s t b m' e r i rest decodes h sound taken =
    let (author, rev, applied) = result_reports s.machine m' e r h in
    let (heap', runs, told) = on_commit-IsInformed (record t { callbacks = rest }) r sound in
    (
      ap (λ o. o >>= result_of s) (apply-decoded decode s.machine b e decodes ∙ h),
      heap',
      ap (called_back t) taken ∙ runs,
      λ a found.
          rw (told.author a (rw author found), rev)
            (enqueue-IsOffered (t.heap a) (ack m'.head_rev)),
      λ k a found differs. elim (Bool-cases r.is_duplicate) [
        | inl dup ↦
            let id = (IsRegistered-client t.heap t.next t.clients k a sound found).0 in
            inl (dup, told.silent a (inr (dup, λ e'. differs (sym id ∙ e' ∙ author))))
        | inr fresh ↦ inr (
          rw (told.others k a fresh found (λ e'. differs (e' ∙ author)), rev)
              (enqueue-IsOffered (t.heap a) (broadcast r.c_prime m'.head_rev)),
          applied fresh,
        )
      ],
    )
