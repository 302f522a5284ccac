-- ===== src/Raft/Transport/Frames.antt =====
-- Writing and reading one message (internal/raft/transport.go).
use claude_ds_project.Base.{
  ℕ, suc, ap, ◌∙◌, [], Option, true, ◌/◌, ◌%◌, ◌≤◌, ◌<◌, ◌≡◌, refl, ◌++◌, some, le→ltb, lt→ltb,
  eq→==, length, length-append, take-append, drop-append, arith,
}
use claude_ds_project.Raft.Rpc.{Command, Answer}
use claude_ds_project.Raft.Transport.{
  Bytes, Codec, done, failed, payload_too_large, limit, put_uint32, uint32_of, frame, send_message,
  read_payload, read_message, Wire, handle_connection,
}

pub uint32_of-put :
    (n : ℕ)
    → n < 4294967296
    → uint32_of (n / 16777216 % 256) (n / 65536 % 256) (n / 256 % 256) (n % 256) ≡ n
unfolding uint32_of
uint32_of-put n h = omega arith

-- A codec carries a value in a body that fits.
pub record Carries {A : Type 0} (codec : Codec A) (x : A) (body : Bytes) : Type 0 where
  pub marshals : codec.marshal x ≡ some body
  pub unmarshals : codec.unmarshal body ≡ some x
  pub fits : length body ≤ limit

pub small_length : (body : Bytes) → length body ≤ limit → length body % 4294967296 ≡ length body
small_length body h = omega arith

read_payload-frame :
    {A : Type 0} (codec : Codec A) (x : A) (body rest : Bytes)
    → Carries codec x body
    → read_payload codec (length body) (body ++ rest) ≡ done (x, rest)
unfolding read_payload
read_payload-frame codec x body rest h =
    rw
      (
        le→ltb limit (length body) h.fits,
        le→ltb (length (body ++ rest)) (length body) (omega (arith, length-append body rest)),
        take-append body rest,
        drop-append body rest,
        h.unmarshals,
      )
      refl

-- What sendMessage writes, readMessage reads back, with the bytes behind it left, for a value whose body is at most
-- 10 MiB and which the codec restores.
pub read_message-send_message :
    {A : Type 0} (codec : Codec A) (t : ℕ) (x : A) (body rest : Bytes)
    → Carries codec x body
    → (send_message codec t x ≡ done (frame t body))
      × (read_message codec t (frame t body ++ rest) ≡ done (x, rest))
unfolding send_message read_message frame put_uint32
read_message-send_message codec t x body rest h = (
  rw h.marshals refl,
  rw (eq→== t t refl, small_length body h.fits, uint32_of-put (length body) (omega (arith, h.fits)))
      (read_payload-frame codec x body rest h),
)

mod_small : (n : ℕ) → n < 4294967296 → n % 4294967296 ≡ n
mod_small n k = omega arith

-- A body of more than 10 MiB and less than 4 GiB is written without an error, whatever the codec, and no reader takes
-- it: readMessage refuses the message, and handleConnection returns without an answer and leaves the node as it is.
pub read_message-too_large :
    {A S : Type 0} (codec : Codec A) (w : Wire) (serve : S → Command → S × Option Answer) (t : ℕ)
    (x : A) (body rest : Bytes) (fuel : ℕ) (s : S)
    → codec.marshal x ≡ some body
    → limit < length body
    → length body < 4294967296
    → (send_message codec t x ≡ done (frame t body))
      × (read_message codec t (frame t body ++ rest) ≡ failed payload_too_large)
      × (handle_connection w serve (suc fuel) s (frame t body ++ rest) ≡ (s, [], true))
unfolding send_message read_message frame put_uint32 read_payload handle_connection
read_message-too_large codec w serve t x body rest fuel s h large small =
    let length_read =
      ap (λ n. uint32_of (n / 16777216 % 256) (n / 65536 % 256) (n / 256 % 256) (n % 256))
        (mod_small (length body) small)
      ∙ uint32_of-put (length body) small in
    (
      rw h refl,
      rw (eq→== t t refl, length_read, lt→ltb limit (length body) large) refl,
      rw (length_read, lt→ltb limit (length body) large) refl,
    )
