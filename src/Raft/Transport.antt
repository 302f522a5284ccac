-- ===== src/Raft/Transport.antt =====
-- internal/raft/transport.go: messages in frames on a TCP connection. A connection is the list of the
-- bytes that are still to be read; the codec of `encoding/json` is an argument, and so is the node that
-- serves the channel of incoming RPCs.
pub mod Frames
pub mod Calls
use claude_ds_project.Base.{
  ℕ, zero, suc, ◌+◌, ◌*◌, ◌/◌, ◌%◌, List, [], ◌∷◌, ◌++◌, Option, none, some, Bool, true, false,
  ◌==◌, ltb, leb, if◌then◌else◌, length, take, drop,
}
use claude_ds_project.Raft.Types.{
  AppendEntriesRequest, AppendEntriesResponse, RequestVoteRequest, RequestVoteResponse,
}
use claude_ds_project.Raft.Rpc.{
  Command, append_entries_command, request_vote_command, Answer, append_entries_answer,
  request_vote_answer,
}

abbrev pub Bytes : Type 0
Bytes = List ℕ

-- json.Marshal and json.Unmarshal at one type; `none` is an error.
pub record Codec (A : Type 0) : Type 0 where
  pub marshal : A → Option Bytes
  pub unmarshal : Bytes → Option A

pub data TransportError : Type 0 where
  dial_failed marshal_failed header_short unexpected_type payload_too_large payload_short
        unmarshal_failed :
      TransportError

pub data Sent (A : Type 0) : Type 0 where
  done : A → Sent A
  failed : TransportError → Sent A

abbrev pub msg_append_entries_req : ℕ
msg_append_entries_req = 0

abbrev pub msg_append_entries_resp : ℕ
msg_append_entries_resp = 1

abbrev pub msg_request_vote_req : ℕ
msg_request_vote_req = 2

abbrev pub msg_request_vote_resp : ℕ
msg_request_vote_resp = 3

-- 10*1024*1024
abbrev pub limit : ℕ
limit = 10485760

-- binary.BigEndian.PutUint32 of `n`, and Uint32.
unfoldable pub put_uint32 : ℕ → Bytes
put_uint32 n = n / 16777216 % 256 ∷ (n / 65536 % 256 ∷ (n / 256 % 256 ∷ (n % 256 ∷ [])))

unfoldable pub uint32_of : ℕ → ℕ → ℕ → ℕ → ℕ
uint32_of a b c d = a * 16777216 + b * 65536 + c * 256 + d

-- The message that sendMessage writes: the type, the length as a uint32, and the body.
unfoldable pub frame : ℕ → Bytes → Bytes
unfolding put_uint32
frame msg_type body = msg_type ∷ (put_uint32 (length body % 4294967296) ++ body)

abbrev framed : ℕ → Option Bytes → Sent Bytes
framed msg_type none = failed marshal_failed
framed msg_type (some body) = done (frame msg_type body)

-- sendMessage, to the bytes that it writes.
unfoldable pub send_message : {A : Type 0} → Codec A → ℕ → A → Sent Bytes
unfolding frame
send_message codec msg_type payload = framed msg_type (codec.marshal payload)

abbrev decoded : {A : Type 0} → Bytes → Option A → Sent (A × Bytes)
decoded rest none = failed unmarshal_failed
decoded rest (some x) = done (x, rest)

-- What follows the header: the limit, io.ReadFull of the payload, and json.Unmarshal.
unfoldable pub read_payload : {A : Type 0} → Codec A → ℕ → Bytes → Sent (A × Bytes)
read_payload codec len rest =
    if ltb limit len
    then failed payload_too_large
    else if ltb (length rest) len
    then failed payload_short
    else decoded (drop len rest) (codec.unmarshal (take len rest))

-- readMessage: the value, and the bytes behind the message.
unfoldable pub read_message : {A : Type 0} → Codec A → ℕ → Bytes → Sent (A × Bytes)
unfolding read_payload uint32_of
read_message codec expected (t ∷ (a ∷ (b ∷ (c ∷ (d ∷ rest))))) =
    if t == expected then read_payload codec (uint32_of a b c d) rest else failed unexpected_type
read_message codec expected _ = failed header_short

-- The codecs of the four messages.
pub record Wire : Type 0 where
  pub append_req : Codec AppendEntriesRequest
  pub append_resp : Codec AppendEntriesResponse
  pub vote_req : Codec RequestVoteRequest
  pub vote_resp : Codec RequestVoteResponse

-- The bytes that answer an RPC.
unfoldable pub send_answer : Wire → Answer → Sent Bytes
unfolding send_message
send_answer w (append_entries_answer resp) = send_message w.append_resp msg_append_entries_resp resp
send_answer w (request_vote_answer resp) = send_message w.vote_resp msg_request_vote_resp resp

abbrev as_append : Option AppendEntriesRequest → Option Command
as_append none = none
as_append (some req) = some (append_entries_command req)

abbrev as_vote : Option RequestVoteRequest → Option Command
as_vote none = none
as_vote (some req) = some (request_vote_command req)

-- The `switch` on the type of a request; other types end the connection.
unfoldable pub decode_command : Wire → ℕ → Bytes → Option Command
decode_command w t payload =
    if t == msg_append_entries_req
    then as_append (w.append_req.unmarshal payload)
    else if t == msg_request_vote_req
    then as_vote (w.vote_req.unmarshal payload)
    else none

-- handleConnection, over a node of state `S` that answers a command, or not within ten seconds. The result
-- is the state of the node, the bytes that were written, and whether the loop has returned: without it the fuel
-- was out. The end of the bytes is the close of the connection by the peer, or the deadline of five seconds.
module _ {S : Type 0} (w : Wire) (serve : S → Command → S × Option Answer) where
  abbrev written : Sent Bytes → Option Bytes
  written (done bytes) = some bytes
  written (failed e) = none

  abbrev pub answered : S × Option Answer → S × Option Bytes
  answered (s, none) = (s, none)
  answered (s, some answer) = (s, written (send_answer w answer))

  -- One request on the connection.
  unfoldable pub serve_request : S → Option Command → S × Option Bytes
  unfolding send_answer
  serve_request s none = (s, none)
  serve_request s (some command) = answered (serve s command)

  -- An answer is written, and the loop goes on; without one the connection is closed.
  abbrev pub and_then : (S → S × Bytes × Bool) → S × Option Bytes → S × Bytes × Bool
  and_then next (s, none) = (s, [], true)
  and_then next (s, some bytes) = let (s', more, returned) = next s in (s', bytes ++ more, returned)

  unfoldable pub handle_connection : ℕ → S → Bytes → S × Bytes × Bool
  unfolding serve_request decode_command uint32_of
  handle_connection zero s input = (s, [], false)
  handle_connection (suc fuel) s (t ∷ (a ∷ (b ∷ (c ∷ (d ∷ rest))))) =
      let len = uint32_of a b c d in
      let next : S → S × Bytes × Bool = λ s'. handle_connection fuel s' (drop len rest) in
      let request = serve_request s (decode_command w t (take len rest)) in
      if ltb limit len
      then (s, [], true)
      else if ltb (length rest) len
      then (s, [], true)
      else and_then next request
  handle_connection (suc fuel) s _ = (s, [], true)

-- SendAppendEntries and SendRequestVote: `dial` is the connection to the target, as the bytes that come
-- back for those that are written.
abbrev pub first_of : {A : Type 0} → Sent (A × Bytes) → Sent A
first_of (done (x, rest)) = done x
first_of (failed e) = failed e

abbrev pub received : {B : Type 0} → Codec B → ℕ → (Bytes → Bytes) → Sent Bytes → Sent B
received codec t server (failed e) = failed e
received codec t server (done bytes) = first_of (read_message codec t (server bytes))

unfoldable pub call :
    {A B : Type 0} → Codec A → Codec B → ℕ → ℕ → Option (Bytes → Bytes) → A → Sent B
unfolding send_message read_message
call req_codec resp_codec req_type resp_type none req = failed dial_failed
call req_codec resp_codec req_type resp_type (some server) req =
    received resp_codec resp_type server (send_message req_codec req_type req)

unfoldable pub send_append_entries :
    Wire → Option (Bytes → Bytes) → AppendEntriesRequest → Sent AppendEntriesResponse
unfolding call
send_append_entries w dial req =
    call w.append_req w.append_resp msg_append_entries_req msg_append_entries_resp dial req

unfoldable pub send_request_vote :
    Wire → Option (Bytes → Bytes) → RequestVoteRequest → Sent RequestVoteResponse
unfolding call
send_request_vote w dial req =
    call w.vote_req w.vote_resp msg_request_vote_req msg_request_vote_resp dial req
