-- ===== src/Sv2/Messages/Delivery.antt =====
-- sv2/messages.hpp and sv2/codec.cpp together: a message from `encode_message` to the decoder of
-- its type, through a stream cut anywhere.
use erikslund_solo_pool.Prelude.{
  ℕ, ◌/◌, ◌%◌, ◌^◌, ◌≤◌, ◌<◌, ◌≡◌, refl, Bool, true, false, List, [], ◌∷◌, ◌++◌, Bytes, length,
  Throws, ok, throw, bind, arith, if◌then◌else◌, not, ◌==◌, ◌∙◌, append-nil,
}
use mathlib.Core.List.{flatten}
use erikslund_solo_pool.Sv2.Codec.{
  CodecError, Frame, new_decoder, completed, encode_frame, make_extension_type, trailing_bytes,
  extension_id, is_channel_message,
}
use erikslund_solo_pool.Sv2.Codec.Frames.{IsFrame, frame_bytes, encode_frame_bytes}
use erikslund_solo_pool.Sv2.Codec.Chunks.{push_chunks}
use erikslund_solo_pool.Sv2.Codec.Delivery.{encode_each, push_chunks-encode_each}
use erikslund_solo_pool.Sv2.Wire.{RoundTrip}
use erikslund_solo_pool.Sv2.Messages.{
  Message, setup_connection, setup_connection_success, setup_connection_error,
  open_standard_mining_channel, open_standard_mining_channel_success, open_mining_channel_error,
  open_extended_mining_channel, open_extended_mining_channel_success, new_mining_job,
  update_channel, update_channel_error, close_channel, set_extranonce_prefix,
  submit_shares_standard, submit_shares_extended, submit_shares_success, submit_shares_error,
  new_extended_mining_job, set_new_prev_hash, set_target, message_type, channel_message,
}
use erikslund_solo_pool.Sv2.Messages.Encode.{encode_payload, encode_message}
use erikslund_solo_pool.Sv2.Messages.Decode.{decode_as}
use erikslund_solo_pool.Sv2.Messages.Valid.{IsValid}
use erikslund_solo_pool.Sv2.Messages.RoundTrip.{
  setup_connection-RoundTrip, setup_connection_success-RoundTrip, setup_connection_error-RoundTrip,
  open_standard_mining_channel-RoundTrip, open_standard_mining_channel_success-RoundTrip,
  open_mining_channel_error-RoundTrip, open_extended_mining_channel-RoundTrip,
  open_extended_mining_channel_success-RoundTrip, new_mining_job-RoundTrip,
  update_channel-RoundTrip, update_channel_error-RoundTrip, close_channel-RoundTrip,
  set_extranonce_prefix-RoundTrip, submit_shares_standard-RoundTrip,
  submit_shares_extended-RoundTrip, submit_shares_success-RoundTrip, submit_shares_error-RoundTrip,
  new_extended_mining_job-RoundTrip, set_new_prev_hash-RoundTrip, set_target-RoundTrip,
}

-- The longest payload: a NewExtendedMiningJob with every field at its limit.
abbrev pub longest_payload : ℕ
longest_payload = 139253

-- What `RoundTrip` says of one message type, for the sum of all.
lift :
    {A : Type 0} {n : ℕ} {encoded : Throws CodecError Bytes} {decoder : Bytes → Throws CodecError A}
    {a : A} (c : A → Message)
    → RoundTrip n encoded decoder a
    → n ≤ longest_payload
    → RoundTrip longest_payload encoded (λ p. bind (decoder p) (λ m. ok (c m))) (c a)
lift c r h = record {
  bytes = r.bytes;
  short = omega (arith, r.short);
  encodes = r.encodes;
  decodes = rw r.decodes;
  refuses = λ x more. rw (r.refuses x more);
}

payload-RoundTrip :
    (m : Message) → IsValid m → RoundTrip longest_payload (encode_payload m) (decode_as m) m
unfolding encode_payload decode_as
payload-RoundTrip (setup_connection m) h =
    lift setup_connection (setup_connection-RoundTrip m h) (omega arith)
payload-RoundTrip (setup_connection_success m) h =
    lift setup_connection_success (setup_connection_success-RoundTrip m h) (omega arith)
payload-RoundTrip (setup_connection_error m) h =
    lift setup_connection_error (setup_connection_error-RoundTrip m h) (omega arith)
payload-RoundTrip (open_standard_mining_channel m) h =
    lift open_standard_mining_channel (open_standard_mining_channel-RoundTrip m h) (omega arith)
payload-RoundTrip (open_standard_mining_channel_success m) h =
    lift open_standard_mining_channel_success (open_standard_mining_channel_success-RoundTrip m h)
      (omega arith)
payload-RoundTrip (open_mining_channel_error m) h =
    lift open_mining_channel_error (open_mining_channel_error-RoundTrip m h) (omega arith)
payload-RoundTrip (open_extended_mining_channel m) h =
    lift open_extended_mining_channel (open_extended_mining_channel-RoundTrip m h) (omega arith)
payload-RoundTrip (open_extended_mining_channel_success m) h =
    lift open_extended_mining_channel_success (open_extended_mining_channel_success-RoundTrip m h)
      (omega arith)
payload-RoundTrip (new_mining_job m) h =
    lift new_mining_job (new_mining_job-RoundTrip m h) (omega arith)
payload-RoundTrip (update_channel m) h =
    lift update_channel (update_channel-RoundTrip m h) (omega arith)
payload-RoundTrip (update_channel_error m) h =
    lift update_channel_error (update_channel_error-RoundTrip m h) (omega arith)
payload-RoundTrip (close_channel m) h =
    lift close_channel (close_channel-RoundTrip m h) (omega arith)
payload-RoundTrip (set_extranonce_prefix m) h =
    lift set_extranonce_prefix (set_extranonce_prefix-RoundTrip m h) (omega arith)
payload-RoundTrip (submit_shares_standard m) h =
    lift submit_shares_standard (submit_shares_standard-RoundTrip m h) (omega arith)
payload-RoundTrip (submit_shares_extended m) h =
    lift submit_shares_extended (submit_shares_extended-RoundTrip m h) (omega arith)
payload-RoundTrip (submit_shares_success m) h =
    lift submit_shares_success (submit_shares_success-RoundTrip m h) (omega arith)
payload-RoundTrip (submit_shares_error m) h =
    lift submit_shares_error (submit_shares_error-RoundTrip m h) (omega arith)
payload-RoundTrip (new_extended_mining_job m) h =
    lift new_extended_mining_job (new_extended_mining_job-RoundTrip m h) (omega arith)
payload-RoundTrip (set_new_prev_hash m) h =
    lift set_new_prev_hash (set_new_prev_hash-RoundTrip m h) (omega arith)
payload-RoundTrip (set_target m) h = lift set_target (set_target-RoundTrip m h) (omega arith)

-- Every valid message is encoded; its decoder reads just that message back, and refuses the bytes
-- with anything behind them.
pub decode_as-encode_payload :
    (m : Message)
    → IsValid m
    → (p : Bytes) × (encode_payload m ≡ ok p)
      × (decode_as m p ≡ ok m)
      × ((x : ℕ) (more : Bytes) → decode_as m (p ++ (x ∷ more)) ≡ throw trailing_bytes)
decode_as-encode_payload m h =
    let r = payload-RoundTrip m h in (r.bytes, r.encodes, r.decodes, r.refuses)

-- The frame that `encode_message` encodes.
abbrev frame_of : Message → Bytes → Frame
frame_of m p = record {
  extension_type = if channel_message m then 0x8000 else 0;
  message_type = message_type m;
  payload = p;
}

message_type-lt : (m : Message) → message_type m < 2 ^ 8
unfolding message_type
message_type-lt m = ground arith

make_extension_type_lem : (b : Bool) → make_extension_type 0 b ≡ ok (if b then 0x8000 else 0)
unfolding make_extension_type
make_extension_type_lem true = refl
make_extension_type_lem false = refl

frame_of-IsFrame : (m : Message) (p : Bytes) → length p ≤ longest_payload → IsFrame (frame_of m p)
frame_of-IsFrame m p short = record {
  extension_fits = ground arith;
  type_fits = message_type-lt m;
  payload_fits = omega arith;
}

frame_of_fields :
    (m : Message) (p : Bytes)
    → (extension_id (frame_of m p) ≡ 0) × (is_channel_message (frame_of m p) ≡ channel_message m)
unfolding extension_id is_channel_message
frame_of_fields m p = split (channel_message m)
  where
    split :
        (b : Bool)
        → ((if b then 0x8000 else 0) % 2 ^ 15 ≡ 0)
          × (not ((if b then 0x8000 else 0) / 2 ^ 15 % 2 == 0) ≡ b)
    split true = (refl, refl)
    split false = (refl, refl)

encode_message_frame :
    (m : Message) (p : Bytes)
    → encode_payload m ≡ ok p
    → encode_message m ≡ encode_frame (frame_of m p)
unfolding encode_message
encode_message_frame m p e = rw (make_extension_type_lem (channel_message m), e)

-- A valid message is encoded, and a receiver that accepts payloads of that length gets, however the
-- bytes are cut, one frame with the core extension, the message's type and its channel bit, from
-- whose payload the message's decoder reads it back; the decoder of frames is ready for the next.
pub push_chunks-encode_message :
    (m : Message) (limit : ℕ) (cut : Bytes → List Bytes)
    → IsValid m
    → longest_payload ≤ limit
    → ((bytes : Bytes) → flatten (cut bytes) ≡ bytes)
    → (bytes : Bytes) × (f : Frame) × (encode_message m ≡ ok bytes)
      × (push_chunks (new_decoder limit) (cut bytes) ≡ completed (f ∷ []) (new_decoder limit))
      × (extension_id f ≡ 0)
      × (f.message_type ≡ message_type m)
      × (is_channel_message f ≡ channel_message m)
      × (decode_as m f.payload ≡ ok m)
push_chunks-encode_message m limit cut h accepts whole =
    let r = payload-RoundTrip m h in
    let f : Frame = frame_of m r.bytes in
    let v : IsFrame f = frame_of-IsFrame m r.bytes r.short in
    let sent : encode_message m ≡ ok (frame_bytes f) =
      encode_message_frame m r.bytes r.encodes ∙ encode_frame_bytes f v in
    let received =
      push_chunks-encode_each limit (f ∷ []) (cut (frame_bytes f)) ((v, omega (arith, r.short)), tt)
        (unfold encode_each in
          rw (encode_frame_bytes f v, append-nil (frame_bytes f), whole (frame_bytes f))) in
    let (extension, channel) = frame_of_fields m r.bytes in
    (frame_bytes f, f, sent, received, extension, refl, channel, r.decodes)
