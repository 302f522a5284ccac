-- ===== src/Examples/Wire.antt =====
-- Messages and calls on a connection (internal/raft/transport.go).
use claude_ds_project.Base.{
  ℕ, zero, suc, ◌≡◌, ◌<◌, refl, [], ◌∷◌, ◌++◌, none, some, true, length, arith,
}
use claude_ds_project.Raft.Types.{AppendEntriesResponse, RequestVoteRequest}
use claude_ds_project.Raft.Inmem.Interface.{inmem}
use claude_ds_project.Raft.AppendEntries.{handle_append_entries}
use claude_ds_project.Raft.Transport.{
  Bytes, Codec, done, failed, payload_too_large, limit, frame, send_message, read_message, Wire,
  handle_connection, send_append_entries,
}
use claude_ds_project.Raft.Transport.Frames.{
  Carries, read_message-send_message, read_message-too_large,
}
use claude_ds_project.Raft.Transport.Calls.{
  serve_node, connection, send_append_entries-handle_append_entries,
}
use claude_ds_project.Examples.Cluster.{voter, append_request}

-- A number in one byte.
abbrev number : Codec ℕ
number = record {
  marshal = λ n. some (n ∷ []);
  unmarshal = λ bytes. elim bytes [ [] ↦ none | b ∷ rest ↦ some b ];
}

number-Carries : Carries number 5 (5 ∷ [])
number-Carries = record { marshals = refl; unmarshals = refl; fits = omega arith }

read_message-send_message_example :
    (send_message number 1 5 ≡ done (frame 1 (5 ∷ [])))
    × (read_message number 1 (frame 1 (5 ∷ []) ++ (9 ∷ [])) ≡ done (5, 9 ∷ []))
read_message-send_message_example =
    read_message-send_message number 1 5 (5 ∷ []) (9 ∷ []) number-Carries

unfoldable zeros : ℕ → Bytes
zeros zero = []
zeros (suc n) = 0 ∷ zeros n

length-zeros : (n : ℕ) → length (zeros n) ≡ n
unfolding zeros
length-zeros zero = refl
length-zeros (suc n) = omega (arith, length-zeros n)

-- A codec of large bodies: as many bytes as the number says.
abbrev padded : Codec ℕ
padded = record { marshal = λ n. some (zeros n); unmarshal = λ bytes. some (length bytes) }

too_large : (n : ℕ) → limit < n → limit < length (zeros n)
too_large n h = omega (arith, length-zeros n)

small : (n : ℕ) → n < 4294967296 → length (zeros n) < 4294967296
small n h = omega (arith, length-zeros n)

-- A wire on which every body is one byte, for the messages of the test.
abbrev reply : AppendEntriesResponse
reply = (handle_append_entries inmem voter append_request).1

abbrev vote_question : RequestVoteRequest
vote_question = record { term = 3; candidate_id = "s2"; last_log_index = 1; last_log_term = 1 }

abbrev wire : Wire
wire = record {
  append_req = record { marshal = λ req. some (1 ∷ []); unmarshal = λ bytes. some append_request };
  append_resp = record { marshal = λ resp. some (2 ∷ []); unmarshal = λ bytes. some reply };
  vote_req = record { marshal = λ req. some (3 ∷ []); unmarshal = λ bytes. some vote_question };
  vote_resp = record {
    marshal = λ resp. some (4 ∷ []);
    unmarshal = λ bytes. some (record { term = 3; vote_granted = true });
  };
}

send_append_entries-handle_append_entries_example :
    (send_append_entries wire (some (λ bytes. (connection inmem wire voter bytes).1)) append_request
      ≡ done reply)
    × (connection inmem wire voter (frame 0 (1 ∷ []))
        ≡ ((handle_append_entries inmem voter append_request).0, frame 1 (2 ∷ []), true))
send_append_entries-handle_append_entries_example =
    send_append_entries-handle_append_entries inmem wire voter append_request (1 ∷ []) (2 ∷ [])
      (record { marshals = refl; unmarshals = refl; fits = omega arith })
      (record { marshals = refl; unmarshals = refl; fits = omega arith })

-- A node takes no request of 10 MiB and one byte.
read_message-too_large_example :
    (send_message padded 0 10485761 ≡ done (frame 0 (zeros 10485761)))
    × (read_message padded 0 (frame 0 (zeros 10485761) ++ []) ≡ failed payload_too_large)
    × (handle_connection wire (serve_node inmem wire voter) 2 voter (frame 0 (zeros 10485761) ++ [])
        ≡ (voter, [], true))
read_message-too_large_example =
    read_message-too_large padded wire (serve_node inmem wire voter) 0 10485761 (zeros 10485761) []
      1 voter refl (too_large 10485761 (omega arith)) (small 10485761 (omega arith))
