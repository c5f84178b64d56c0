-- ===== src/Sv2/Codec/Rounds.antt =====
-- sv2/codec.cpp, FrameDecoder::push: one round of its loop, both branches in one form.
use erikslund_solo_pool.Prelude.{
  ℕ, ◌-◌, ◌≤◌, ◌<◌, ◌≡◌, true, false, not, List, [], ◌++◌, Bytes, length, take, drop, min, ◌==◌,
  if◌then◌else◌, Bool-cases, ◌⊎◌, inl, inr, arith, length-append, append_assoc,
}
use erikslund_solo_pool.Sv2.Codec.{
  Frame, FrameDecoder, frame_header_size, begin_payload, complete, Round, next, over_limit, round,
  reset_frame,
}

-- The state between two calls of `push`: a part of a header, or a part of a payload that is not whole.
abbrev pub IsReady : FrameDecoder → Type 0
IsReady d =
    ((d.reading_payload ≡ false) × (length d.header < 6) × (d.frame.payload ≡ []))
    ⊎ ((d.reading_payload ≡ true) × (length d.frame.payload < d.payload_size))

-- How many bytes the header or the payload still lacks.
unfoldable pub need : FrameDecoder → ℕ
need d =
    if not d.reading_payload
    then frame_header_size - length d.header
    else d.payload_size - length d.frame.payload

unfoldable pub absorb : FrameDecoder → Bytes → FrameDecoder
absorb d bytes =
    if not d.reading_payload then record d { header = d.header ++ bytes } else record d {
      frame = record {
        extension_type = d.frame.extension_type;
        message_type = d.frame.message_type;
        payload = d.frame.payload ++ bytes;
      };
    }

-- What a round does after it has copied.
unfoldable pub settle : FrameDecoder → List Frame → Bytes → Round
settle d frames rest =
    if not d.reading_payload
    then (if not (length d.header == frame_header_size)
        then next d frames rest
        else let (d', begun) = begin_payload d in
          let (d'', frames') = complete d' frames in
          if begun then next d'' frames' rest else over_limit d' frames)
    else let (d', frames') = complete d frames in next d' frames' rest

pub round-settle :
    (d : FrameDecoder) (frames : List Frame) (bytes : Bytes)
    → let count = min (need d) (length bytes) in
      round d frames bytes ≡ settle (absorb d (take count bytes)) frames (drop count bytes)
unfolding round need absorb settle
round-settle d frames bytes = elim (Bool-cases d.reading_payload) [
  | inl reading ↦ rw reading
  | inr header ↦ rw header
]

abbrev pub with_rest : Round → Bytes → Round
with_rest (next d frames rest) more = next d frames (rest ++ more)
with_rest (over_limit d frames) more = over_limit d frames

pub settle-append :
    (d : FrameDecoder) (frames : List Frame) (rest more : Bytes)
    → settle d frames (rest ++ more) ≡ with_rest (settle d frames rest) more
unfolding settle
settle-append d frames rest more = ground arith

pub need_pos : (d : FrameDecoder) → IsReady d → 0 < need d
unfolding need
need_pos d ready = ground arith

pub absorb-append :
    (d : FrameDecoder) (xs ys : Bytes) → absorb (absorb d xs) ys ≡ absorb d (xs ++ ys)
unfolding absorb
absorb-append d xs ys = elim (Bool-cases d.reading_payload) [
  | inl reading ↦ rw (reading, append_assoc d.frame.payload xs ys)
  | inr header ↦ rw (header, append_assoc d.header xs ys)
]

pub need-absorb : (d : FrameDecoder) (xs : Bytes) → need (absorb d xs) ≡ need d - length xs
unfolding need absorb
need-absorb d xs = elim (Bool-cases d.reading_payload) [
  | inl reading ↦ rw (reading) (omega (arith, length-append d.frame.payload xs))
  | inr header ↦ rw (header) (omega (arith, length-append d.header xs))
]

-- Bytes that do not fill the header or the payload are kept, and nothing else happens.
pub settle-absorb :
    (d : FrameDecoder) (frames : List Frame) (xs rest : Bytes)
    → IsReady d
    → length xs < need d
    → (settle (absorb d xs) frames rest ≡ next (absorb d xs) frames rest) × IsReady (absorb d xs)
unfolding settle absorb need complete
settle-absorb d frames xs rest ready short =
    ground (arith, length-append d.frame.payload xs, length-append d.header xs)

-- Between rounds the decoder is ready again, and a round leaves what it did not copy.
abbrev pub Keeps : Round → Bytes → Type 0
Keeps (next d frames rest) bytes = IsReady d × (rest ≡ bytes)
Keeps (over_limit d frames) bytes = IsReady d

pub settle-Keeps :
    (d : FrameDecoder) (frames : List Frame) (xs rest : Bytes)
    → IsReady d
    → length xs ≤ need d
    → Keeps (settle (absorb d xs) frames rest) rest
unfolding settle absorb need complete begin_payload reset_frame
settle-Keeps d frames xs rest ready fits =
    ground (arith, length-append d.frame.payload xs, length-append d.header xs)
