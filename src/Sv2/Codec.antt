-- ===== src/Sv2/Codec.antt =====
-- sv2/codec.hpp and sv2/codec.cpp: the six-byte frame header, and the incremental decoder.
pub mod Rounds
pub mod Stream
pub mod Frames
pub mod Chunks
pub mod Delivery
use erikslund_solo_pool.Prelude.{
  ℕ, zero, suc, ◌+◌, ◌-◌, ◌*◌, ◌/◌, ◌%◌, ◌^◌, ◌≡◌, Bool, true, false, not, ◌||◌, List, [], ◌∷◌,
  ◌++◌, Bytes, length, take, drop, get_or, min, bit_or, ltb, ◌==◌, if◌then◌else◌, Throws, ok, throw,
}
use erikslund_solo_pool.Util.Endian.{read_le16, read_le24, write_le16, write_le24}

-- The exceptions of the codec, one for each message text.
pub data CodecError : Type 0 where
  extension_id_exceeds_15_bits payload_exceeds_u24 payload_exceeds_limit truncated_frame :
      CodecError
  str0_255_exceeds_255 b0_32_exceeds_32 b0_64k_exceeds_65535 seq0_255_exceeds_255 : CodecError
  option_count_exceeds_one trailing_bytes truncated_message : CodecError

abbrev pub frame_header_size : ℕ
frame_header_size = 6

abbrev pub core_extension_id : ℕ
core_extension_id = 0

abbrev pub channel_message_flag : ℕ
channel_message_flag = 0x8000

abbrev pub extension_id_mask : ℕ
extension_id_mask = 0x7fff

abbrev pub maximum_frame_payload_size : ℕ
maximum_frame_payload_size = 0x00ff_ffff

pub record Frame : Type 0 where
  pub extension_type : ℕ
  pub message_type : ℕ
  pub payload : Bytes

-- `extension_type & 0x7fff`.
unfoldable pub extension_id : Frame → ℕ
extension_id f = f.extension_type % 2 ^ 15

-- `(extension_type & 0x8000) != 0`, for a 16-bit number.
unfoldable pub is_channel_message : Frame → Bool
is_channel_message f = not (f.extension_type / 2 ^ 15 % 2 == 0)

unfoldable pub make_extension_type : ℕ → Bool → Throws CodecError ℕ
make_extension_type id channel_message =
    if ltb extension_id_mask id
    then throw extension_id_exceeds_15_bits
    else ok (bit_or id (if channel_message then channel_message_flag else 0))

unfoldable pub encode_frame : Frame → Throws CodecError Bytes
encode_frame f =
    if ltb maximum_frame_payload_size (length f.payload)
    then throw payload_exceeds_u24
    else ok (
        write_le16 f.extension_type
        ++ (f.message_type ∷ (write_le24 (length f.payload) ++ f.payload)))

-- `header` holds the first `header_size_` bytes of the array `header_`; no other byte of it is read.
-- `frame` is what `frame_` holds, and `payload_size` what was announced for it.
pub record FrameDecoder : Type 0 where
  pub maximum_payload_size : ℕ
  pub header : Bytes
  pub frame : Frame
  pub payload_size : ℕ
  pub reading_payload : Bool

abbrev pub empty_frame : Frame
empty_frame = record { extension_type = 0; message_type = 0; payload = [] }

unfoldable pub new_decoder : ℕ → FrameDecoder
new_decoder limit = record {
  maximum_payload_size = limit;
  header = [];
  frame = empty_frame;
  payload_size = 0;
  reading_payload = false;
}

unfoldable pub reset_frame : FrameDecoder → FrameDecoder
reset_frame d = record d {
  header = [];
  frame = empty_frame;
  payload_size = 0;
  reading_payload = false;
}

-- The header parsed into the frame; `false` after a reset if the payload is over the limit.
unfoldable pub begin_payload : FrameDecoder → FrameDecoder × Bool
unfolding reset_frame
begin_payload d =
    let size = read_le24 (drop 3 d.header) in
    let frame' : Frame = record {
      extension_type = read_le16 d.header;
      message_type = get_or d.header 2 0;
      payload = d.frame.payload;
    } in
    if ltb d.maximum_payload_size size
    then (reset_frame d, false)
    else (record d { frame = frame'; payload_size = size; reading_payload = true }, true)

-- `push` returns the frames it completed, or throws an error that carries them; the object keeps
-- its new state in both cases. `stuck` is no result of the code: the loop ran out of fuel.
pub data Pushed : Type 0 where
  completed : List Frame → FrameDecoder → Pushed
  failed : CodecError → List Frame → FrameDecoder → Pushed
  stuck : Pushed

-- The lines below the two branches: a frame with its whole payload is moved out.
unfoldable pub complete : FrameDecoder → List Frame → FrameDecoder × List Frame
unfolding reset_frame
complete d frames =
    if length d.frame.payload == d.payload_size
    then (reset_frame d, frames ++ (d.frame ∷ []))
    else (d, frames)

-- One round of the loop on the header branch or the payload branch, with the bytes left for the next.
pub data Round : Type 0 where
  next : FrameDecoder → List Frame → Bytes → Round
  over_limit : FrameDecoder → List Frame → Round

unfoldable pub header_round : FrameDecoder → List Frame → Bytes → Round
header_round d frames bytes =
    let count = min (frame_header_size - length d.header) (length bytes) in
    let d' : FrameDecoder = record d { header = d.header ++ take count bytes } in
    if not (length d'.header == frame_header_size)
    then next d' frames (drop count bytes)
    else let (d'', begun) = begin_payload d' in
      let (d₃, frames') = complete d'' frames in
      if begun then next d₃ frames' (drop count bytes) else over_limit d'' frames

unfoldable pub payload_round : FrameDecoder → List Frame → Bytes → Round
payload_round d frames bytes =
    let count = min (d.payload_size - length d.frame.payload) (length bytes) in
    let frame' : Frame = record {
      extension_type = d.frame.extension_type;
      message_type = d.frame.message_type;
      payload = d.frame.payload ++ take count bytes;
    } in
    let (d', frames') = complete (record d { frame = frame' }) frames in
    next d' frames' (drop count bytes)

unfoldable pub round : FrameDecoder → List Frame → Bytes → Round
unfolding header_round payload_round
round d frames bytes =
    if not d.reading_payload then header_round d frames bytes else payload_round d frames bytes

pub push_loop : ℕ → FrameDecoder → List Frame → Bytes → Pushed
push_loop fuel d frames [] = completed frames d
push_loop zero d frames (b ∷ bs) = stuck
push_loop (suc fuel) d frames (b ∷ bs) = elim (round d frames (b ∷ bs)) [
  | next d' frames' rest ↦ push_loop fuel d' frames' rest
  | over_limit d' frames' ↦ failed payload_exceeds_limit frames' d'
]

-- Every round takes a byte at least, so as many rounds as there are bytes are enough.
unfoldable pub push : FrameDecoder → Bytes → Pushed
unfolding push_loop
push d bytes = push_loop (length bytes) d [] bytes

-- `header_size_ != 0 || reading_payload_`.
unfoldable pub finish : FrameDecoder → Throws CodecError (Unit {0})
finish d = if not (length d.header == 0) || d.reading_payload then throw truncated_frame else ok tt
