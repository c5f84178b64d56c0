-- ===== src/Tests/Sv2.antt =====
-- sv2/: frames cut into chunks, and messages in them.
use erikslund_solo_pool.Prelude.{
  ℕ, ◌≡◌, refl, ap, ◌∙◌, List, [], ◌∷◌, ◌++◌, Bytes, take, drop, replicate, take-append-drop,
  append-nil, ok, throw, arith,
}
use mathlib.Core.List.{flatten}
use erikslund_solo_pool.Util.Endian.{write_le16, write_le24}
use erikslund_solo_pool.Sv2.Codec.{
  Frame, new_decoder, completed, failed, push, payload_exceeds_limit, extension_id,
  is_channel_message, encode_frame, trailing_bytes,
}
use erikslund_solo_pool.Sv2.Codec.Frames.{IsFrame, header_bytes, idle-IsReady}
use erikslund_solo_pool.Sv2.Codec.Chunks.{Returns, push-Returns, push_chunks}
use erikslund_solo_pool.Sv2.Codec.Delivery.{
  encode_each, push_chunks-flatten, push_chunks-encode_each, push-over_limit,
}
use erikslund_solo_pool.Sv2.Messages.{Message, set_target, message_type, channel_message}
use erikslund_solo_pool.Sv2.Messages.Encode.{encode_payload, encode_message}
use erikslund_solo_pool.Sv2.Messages.Decode.{decode_as}
use erikslund_solo_pool.Sv2.Messages.Delivery.{
  longest_payload, decode_as-encode_payload, push_chunks-encode_message,
}

abbrev frame : Frame
frame = record { extension_type = 0x8000; message_type = 0x1a; payload = 1 ∷ 2 ∷ 3 ∷ [] }

abbrev sent : Bytes
sent = 0 ∷ 0x80 ∷ 0x1a ∷ 3 ∷ 0 ∷ 0 ∷ 1 ∷ 2 ∷ 3 ∷ []

abbrev chunks : List Bytes
chunks = (0 ∷ 0x80 ∷ []) ∷ (0x1a ∷ 3 ∷ 0 ∷ 0 ∷ 1 ∷ []) ∷ [] ∷ (2 ∷ 3 ∷ []) ∷ []

frame-IsFrame : IsFrame frame
frame-IsFrame = record {
  extension_fits = omega arith;
  type_fits = omega arith;
  payload_fits = omega arith;
}

frame_encoded : encode_each (frame ∷ []) ≡ ok sent
unfolding encode_each encode_frame write_le16 write_le24
frame_encoded = refl

push-Returns_example : Returns (push (new_decoder 2) sent)
push-Returns_example = push-Returns (new_decoder 2) sent (idle-IsReady 2)

push_chunks-flatten_example :
    push_chunks (new_decoder 64) chunks ≡ push (new_decoder 64) (flatten chunks)
push_chunks-flatten_example = push_chunks-flatten (new_decoder 64) chunks (idle-IsReady 64)

push_chunks-encode_each_example :
    push_chunks (new_decoder 64) chunks ≡ completed (frame ∷ []) (new_decoder 64)
unfolding flatten
push_chunks-encode_each_example =
    push_chunks-encode_each 64 (frame ∷ []) chunks ((frame-IsFrame, omega arith), tt) frame_encoded

abbrev long_frame : Frame
long_frame = record { extension_type = 0; message_type = 1; payload = replicate 5 7 }

long_frame-IsFrame : IsFrame long_frame
long_frame-IsFrame = record {
  extension_fits = omega arith;
  type_fits = omega arith;
  payload_fits = omega arith;
}

push-over_limit_example :
    push (new_decoder 4) (sent ++ (header_bytes long_frame ++ (7 ∷ 7 ∷ [])))
    ≡ failed payload_exceeds_limit (frame ∷ []) (new_decoder 4)
push-over_limit_example =
    push-over_limit 4 (frame ∷ []) long_frame sent (7 ∷ 7 ∷ []) ((frame-IsFrame, omega arith), tt)
      long_frame-IsFrame (omega arith) frame_encoded

abbrev message : Message
message = set_target record { channel_id = 3; maximum_target = replicate 32 0xff }

decode_as-encode_payload_example :
    (p : Bytes) × (encode_payload message ≡ ok p)
    × (decode_as message p ≡ ok message)
    × ((x : ℕ) (more : Bytes) → decode_as message (p ++ (x ∷ more)) ≡ throw trailing_bytes)
decode_as-encode_payload_example = decode_as-encode_payload message (omega arith, refl)

abbrev cut_at_four : Bytes → List Bytes
cut_at_four bytes = take 4 bytes ∷ drop 4 bytes ∷ []

cut_at_four-flatten : (bytes : Bytes) → flatten (cut_at_four bytes) ≡ bytes
unfolding flatten
cut_at_four-flatten bytes =
    ap (λ (end : Bytes). take 4 bytes ++ end) (append-nil (drop 4 bytes)) ∙ take-append-drop 4 bytes

push_chunks-encode_message_example :
    (bytes : Bytes) × (f : Frame) × (encode_message message ≡ ok bytes)
    × (push_chunks (new_decoder longest_payload) (cut_at_four bytes)
        ≡ completed (f ∷ []) (new_decoder longest_payload))
    × (extension_id f ≡ 0)
    × (f.message_type ≡ message_type message)
    × (is_channel_message f ≡ channel_message message)
    × (decode_as message f.payload ≡ ok message)
push_chunks-encode_message_example =
    push_chunks-encode_message message longest_payload cut_at_four (omega arith, refl) (omega arith)
      cut_at_four-flatten
