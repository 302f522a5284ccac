-- ===== src/Raft/Transport/Calls.antt =====
-- A call over a connection, and the loop of a connection (internal/raft/transport.go).
use claude_ds_project.Base.{
  ℕ, zero, suc, ◌≤◌, ◌<◌, ◌≡◌, refl, sym, ap, ◌∙◌, [], ◌∷◌, Option, none, some, Bool, true,
  Bool-cases, inl, inr, ltb, le→ltb, length, take, drop, append-nil, length-drop, take-all,
  drop-all, arith,
}
use claude_ds_project.Raft.Types.{AppendEntriesRequest}
use claude_ds_project.Raft.LogStore.{LogStore}
use claude_ds_project.Raft.Node.{Node}
use claude_ds_project.Raft.AppendEntries.{handle_append_entries}
use claude_ds_project.Raft.Rpc.{Command, append_entries_command, Answer, handle_rpc}
use claude_ds_project.Raft.Transport.{
  Bytes, done, limit, put_uint32, uint32_of, frame, read_message, Wire, send_answer, decode_command,
  serve_request, and_then, handle_connection, call, send_append_entries, first_of, received,
}
use claude_ds_project.Raft.Transport.Frames.{
  uint32_of-put, small_length, Carries, read_message-send_message,
}

module _ {S : Type 0} (w : Wire) (serve : S → Command → S × Option Answer) where
  handle_connection-nil :
      (fuel : ℕ) (s : S) → handle_connection w serve (suc fuel) s [] ≡ (s, [], true)
  unfolding handle_connection
  handle_connection-nil fuel s = refl

  and_then-eq :
      (next next' : S → S × Bytes × Bool) (r : S × Option Bytes)
      → ((s : S) → next s ≡ next' s)
      → and_then w serve next r ≡ and_then w serve next' r
  and_then-eq next next' (s, none) h = refl
  and_then-eq next next' (s, some bytes) h = rw (h s) refl

  and_then-returns :
      (next : S → S × Bytes × Bool) (r : S × Option Bytes)
      → ((s : S) → (next s).2 ≡ true)
      → (and_then w serve next r).2 ≡ true
  and_then-returns next (s, none) h = refl
  and_then-returns next (s, some bytes) h = h s

  -- The loop returns within one round more than there are bytes.
  pub handle_connection-returns :
      (fuel : ℕ) (s : S) (input : Bytes)
      → length input < fuel
      → (handle_connection w serve fuel s input).2 ≡ true
  unfolding handle_connection
  handle_connection-returns zero s input h = absurd (omega arith)
  handle_connection-returns (suc fuel) s [] h = refl
  handle_connection-returns (suc fuel) s (t ∷ []) h = refl
  handle_connection-returns (suc fuel) s (t ∷ (a ∷ [])) h = refl
  handle_connection-returns (suc fuel) s (t ∷ (a ∷ (b ∷ []))) h = refl
  handle_connection-returns (suc fuel) s (t ∷ (a ∷ (b ∷ (c ∷ [])))) h = refl
  handle_connection-returns (suc fuel) s (t ∷ (a ∷ (b ∷ (c ∷ (d ∷ rest))))) h =
      let len = uint32_of a b c d in
      elim (Bool-cases (ltb limit len)) [
        | inl large ↦ rw large refl
        | inr fits ↦ elim (Bool-cases (ltb (length rest) len)) [
          | inl short ↦ rw (fits, short) refl
          | inr whole ↦
              rw (fits, whole)
                (and_then-returns (λ s'. handle_connection w serve fuel s' (drop len rest))
                  (serve_request w serve s (decode_command w t (take len rest)))
                  (λ s'.
                    handle_connection-returns fuel s' (drop len rest)
                      (omega (arith, length-drop len rest))))
        ]
      ]

  -- One message is one request.
  handle_connection-frame :
      (fuel : ℕ) (s : S) (t : ℕ) (body : Bytes)
      → length body ≤ limit
      → handle_connection w serve (suc (suc fuel)) s (frame t body)
        ≡ and_then w serve
            (λ s'. (s', [], true))
            (serve_request w serve s (decode_command w t body))
  unfolding handle_connection frame put_uint32
  handle_connection-frame fuel s t body h =
      rw
        (
          small_length body h,
          uint32_of-put (length body) (omega (arith, h)),
          le→ltb limit (length body) h,
          le→ltb (length body) (length body) (omega arith),
          take-all body (length body) (omega arith),
          drop-all body (length body) (omega arith),
        )
        (and_then-eq _ _ (serve_request w serve s (decode_command w t body))
          (λ s'. handle_connection-nil fuel s'))

module _ (L : LogStore) (w : Wire) (n : Node L.Store) where
  -- A node serves a command by handleRPC.
  abbrev pub serve_node : Node L.Store → Command → Node L.Store × Option Answer
  serve_node m command = let (m', answer, reset) = handle_rpc L m command in (m', some answer)

  -- A connection to the node: what it writes for what it reads, and its state then.
  abbrev pub connection : Bytes → Node L.Store × Bytes × Bool
  connection bytes = handle_connection w serve_node (suc (suc (length bytes))) n bytes

  -- What comes back for the frame of a request that the node takes, when its answer is written as `reply`.
  connection-frame :
      (t : ℕ) (body reply : Bytes) (command : Command)
      → length body ≤ limit
      → decode_command w t body ≡ some command
      → send_answer w (handle_rpc L n command).1 ≡ done reply
      → connection (frame t body) ≡ ((handle_rpc L n command).0, reply, true)
  unfolding serve_request
  connection-frame t body reply command h decodes answers =
      handle_connection-frame w serve_node (length (frame t body)) n t body h
      ∙ rw (decodes, answers)
          (ap (λ bytes. ((handle_rpc L n command).0, bytes, true)) (append-nil reply))

  -- A call of AppendEntries over a connection returns the response of the target's handler, and the target is left
  -- as the handler leaves it, when the bodies of the request and of the response are at most 10 MiB and the
  -- codec restores both.
  pub send_append_entries-handle_append_entries :
      (req : AppendEntriesRequest) (body reply : Bytes)
      → Carries w.append_req req body
      → Carries w.append_resp (handle_append_entries L n req).1 reply
      → (send_append_entries w (some (λ bytes. (connection bytes).1)) req
          ≡ done (handle_append_entries L n req).1)
        × (connection (frame 0 body) ≡ ((handle_append_entries L n req).0, frame 1 reply, true))
  unfolding send_append_entries call decode_command send_answer handle_rpc
  send_append_entries-handle_append_entries req body reply h k =
      let (sent, read) = read_message-send_message w.append_req 0 req body [] h in
      let (sent', read') =
        read_message-send_message w.append_resp 1 (handle_append_entries L n req).1 reply [] k in
      let back =
        connection-frame 0 body (frame 1 reply) (append_entries_command req) h.fits
          (rw h.unmarshals refl) sent' in
      (
        ap (received w.append_resp 1 (λ bytes. (connection bytes).1)) sent
            ∙ ap (λ r. first_of (read_message w.append_resp 1 r.1)) back
            ∙ ap (λ bytes. first_of (read_message w.append_resp 1 bytes))
                (sym (append-nil (frame 1 reply)))
            ∙ ap first_of read',
        back,
      )
