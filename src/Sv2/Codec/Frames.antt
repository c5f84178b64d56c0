-- ===== src/Sv2/Codec/Frames.antt =====
-- sv2/codec.cpp: what `encode_frame` writes, the decoder reads back, one frame or many.
use erikslund_solo_pool.Prelude.{
  ℕ, suc, ◌+◌, ◌^◌, ◌≤◌, ◌<◌, ◌≡◌, refl, ap, ◌∙◌, inl, inr, true, false, List, [], ◌∷◌, ◌++◌, Bytes,
  length, Bool-cases, arith, length-append, append_assoc, append-nil, le→ltb, lt→ltb, ◌==◌, ok,
  take-append, drop-append,
}
use erikslund_solo_pool.Util.Endian.{write_le16, write_le24, read_le16, read_le24}
use erikslund_solo_pool.Util.Endian.Laws.{read_le16-write_le16, read_le24-write_le24}
use erikslund_solo_pool.Sv2.Codec.{
  Frame, FrameDecoder, new_decoder, reset_frame, begin_payload, complete, encode_frame, next,
  over_limit, push_loop, maximum_frame_payload_size, failed, payload_exceeds_limit,
}
use erikslund_solo_pool.Sv2.Codec.Rounds.{IsReady, need, absorb, settle}
use erikslund_solo_pool.Sv2.Codec.Stream.{
  copied, first_round, resume, push_loop_step, push_loop_fuel,
}

-- The fields fit their widths on the wire.
pub record IsFrame (f : Frame) : Type 0 where
  pub extension_fits : f.extension_type < 2 ^ 16
  pub type_fits : f.message_type < 2 ^ 8
  pub payload_fits : length f.payload ≤ maximum_frame_payload_size

abbrev pub header_bytes : Frame → Bytes
header_bytes f = write_le16 f.extension_type ++ (f.message_type ∷ write_le24 (length f.payload))

abbrev pub frame_bytes : Frame → Bytes
frame_bytes f = header_bytes f ++ f.payload

pub encode_frame_bytes : (f : Frame) → IsFrame f → encode_frame f ≡ ok (frame_bytes f)
unfolding encode_frame
encode_frame_bytes f v =
    rw (le→ltb maximum_frame_payload_size (length f.payload) v.payload_fits)
      (unfold write_le16 write_le24 in refl)

pub idle-IsReady : (limit : ℕ) → IsReady (new_decoder limit)
unfolding new_decoder
idle-IsReady limit = inl (refl, omega arith, refl)

-- The decoder behind the header of `f`.
reading : ℕ → Frame → FrameDecoder
reading limit f = record {
  maximum_payload_size = limit;
  header = header_bytes f;
  frame = record { extension_type = f.extension_type; message_type = f.message_type; payload = [] };
  payload_size = length f.payload;
  reading_payload = true;
}

size_lem : (f : Frame) → IsFrame f → read_le24 (write_le24 (length f.payload)) ≡ length f.payload
size_lem f v =
    rw (append-nil (write_le24 (length f.payload))) at
      (read_le24-write_le24 (length f.payload) [] (omega (arith, v.payload_fits)))

begin_lem :
    (limit : ℕ) (f : Frame)
    → IsFrame f
    → length f.payload ≤ limit
    → begin_payload (absorb (new_decoder limit) (header_bytes f)) ≡ (reading limit f, true)
unfolding begin_payload absorb new_decoder reading read_le24 write_le16
begin_lem limit f v fits = rw (size_lem f v, kind, le→ltb limit (length f.payload) fits)
  where
    kind : read_le16 (header_bytes f) ≡ f.extension_type
    kind = read_le16-write_le16 f.extension_type _ v.extension_fits

-- The header alone: the frame is complete if its payload is empty.
header_settle :
    (limit : ℕ) (f : Frame) (frames : List Frame) (rest : Bytes)
    → IsFrame f
    → length f.payload ≤ limit
    → settle (absorb (new_decoder limit) (header_bytes f)) frames rest
      ≡ (let (d, frames') = complete (reading limit f) frames in next d frames' rest)
unfolding settle
header_settle limit f frames rest v fits =
    rw (begin_lem limit f v fits) (unfold absorb new_decoder write_le16 write_le24 in refl)

payload_settle :
    (limit : ℕ) (f : Frame) (frames : List Frame) (rest : Bytes)
    → settle (absorb (reading limit f) f.payload) frames rest
      ≡ next (new_decoder limit) (frames ++ (f ∷ [])) rest
unfolding settle absorb reading complete new_decoder reset_frame
payload_settle limit f frames rest = ground arith

header_first :
    (limit : ℕ) (f : Frame) (frames : List Frame) (rest : Bytes)
    → first_round (new_decoder limit) frames (header_bytes f ++ rest)
      ≡ settle (absorb (new_decoder limit) (header_bytes f)) frames rest
unfolding new_decoder need write_le16 write_le24
header_first limit f frames rest =
    let six : copied (new_decoder limit) (header_bytes f ++ rest) ≡ 6 = omega arith in rw six

payload_first :
    (limit : ℕ) (f : Frame) (frames : List Frame) (rest : Bytes)
    → first_round (reading limit f) frames (f.payload ++ rest)
      ≡ settle (absorb (reading limit f) f.payload) frames rest
unfolding reading need
payload_first limit f frames rest =
    let whole : copied (reading limit f) (f.payload ++ rest) ≡ length f.payload =
      omega (arith, length-append f.payload rest) in
    rw (whole, take-append f.payload rest, drop-append f.payload rest)

complete_empty :
    (limit : ℕ) (f : Frame) (frames : List Frame)
    → f.payload ≡ []
    → complete (reading limit f) frames ≡ (new_decoder limit, frames ++ (f ∷ []))
unfolding complete reading reset_frame new_decoder
complete_empty limit f frames e = ground (arith, ap (length {A = ℕ}) e)

complete_unfinished :
    (limit : ℕ) (f : Frame) (frames : List Frame)
    → (0 == length f.payload) ≡ false
    → complete (reading limit f) frames ≡ (reading limit f, frames)
unfolding complete reading
complete_unfinished limit f frames e = rw e

length-zero : (xs : Bytes) → (0 == length xs) ≡ true → xs ≡ []
length-zero [] e = refl
length-zero (x ∷ xs) e = ground arith

-- Behind the header: an empty payload completes at once, any other in one round more.
payload_loop :
    (n limit : ℕ) (f : Frame) (frames : List Frame) (rest : Bytes)
    → length rest ≤ n
    → (let (d, frames') = complete (reading limit f) frames in
        push_loop (suc n) d frames' (f.payload ++ rest))
      ≡ push_loop (length rest) (new_decoder limit) (frames ++ (f ∷ [])) rest
unfolding resume
payload_loop n limit f frames rest fits = elim (Bool-cases (0 == length f.payload)) [
  | inl empty ↦ rw (complete_empty limit f frames (length-zero f.payload empty)) (
      ap (λ (p : Bytes). push_loop (suc n) (new_decoder limit) (frames ++ (f ∷ [])) (p ++ rest))
        (length-zero f.payload empty)
      ∙ push_loop_fuel (suc n) (length rest) (new_decoder limit) (frames ++ (f ∷ [])) rest
          (idle-IsReady limit) (omega arith) (omega arith))
  | inr some_bytes ↦ rw (complete_unfinished limit f frames some_bytes) (
      push_loop_step n (reading limit f) frames (f.payload ++ rest)
        (ground (arith, length-append f.payload rest))
      ∙ rw (payload_first limit f frames rest, payload_settle limit f frames rest)
          (push_loop_fuel n (length rest) (new_decoder limit) (frames ++ (f ∷ [])) rest
            (idle-IsReady limit) (omega arith) (omega arith)))
]

-- A whole frame in front is decoded, and the rest goes to a decoder in its first state.
pub frame_loop :
    (limit : ℕ) (f : Frame) (frames : List Frame) (rest : Bytes)
    → IsFrame f
    → length f.payload ≤ limit
    → push_loop (length (frame_bytes f ++ rest)) (new_decoder limit) frames (frame_bytes f ++ rest)
      ≡ push_loop (length rest) (new_decoder limit) (frames ++ (f ∷ [])) rest
unfolding resume
frame_loop limit f frames rest v fits = rw (append_assoc (header_bytes f) f.payload rest) (
    push_loop_fuel (length bytes) (suc (suc (length bytes))) (new_decoder limit) frames bytes
      (idle-IsReady limit) (omega arith) (omega arith)
    ∙ push_loop_step (suc (length bytes)) (new_decoder limit) frames bytes
        (omega (arith, length-header))
    ∙ rw
        (
          header_first limit f frames (f.payload ++ rest),
          header_settle limit f frames (f.payload ++ rest) v fits,
        )
        (payload_loop (length bytes) limit f frames rest
          (omega (arith, length-header, length-append f.payload rest))))
  where
    bytes : Bytes
    bytes = header_bytes f ++ (f.payload ++ rest)

    length-header : length bytes ≡ 6 + length (f.payload ++ rest)
    length-header = unfold write_le16 write_le24 in omega arith

begin_over :
    (limit : ℕ) (f : Frame)
    → IsFrame f
    → limit < length f.payload
    → begin_payload (absorb (new_decoder limit) (header_bytes f)) ≡ (new_decoder limit, false)
unfolding begin_payload absorb new_decoder reset_frame read_le24 write_le16
begin_over limit f v over = rw (size_lem f v, lt→ltb limit (length f.payload) over)

header_over :
    (limit : ℕ) (f : Frame) (frames : List Frame) (rest : Bytes)
    → IsFrame f
    → limit < length f.payload
    → settle (absorb (new_decoder limit) (header_bytes f)) frames rest
      ≡ over_limit (new_decoder limit) frames
unfolding settle
header_over limit f frames rest v over =
    rw (begin_over limit f v over) (unfold absorb new_decoder write_le16 write_le24 in refl)

-- A header that announces too much ends the call, whatever comes behind it.
pub frame_over :
    (limit : ℕ) (f : Frame) (frames : List Frame) (rest : Bytes)
    → IsFrame f
    → limit < length f.payload
    → push_loop
        (length (header_bytes f ++ rest))
        (new_decoder limit)
        frames
        (header_bytes f ++ rest)
      ≡ failed payload_exceeds_limit frames (new_decoder limit)
unfolding resume
frame_over limit f frames rest v over =
    push_loop_fuel (length bytes) (suc (length bytes)) (new_decoder limit) frames bytes
      (idle-IsReady limit) (omega arith) (omega arith)
    ∙ push_loop_step (length bytes) (new_decoder limit) frames bytes
        (unfold write_le16 write_le24 in omega arith)
    ∙ rw (header_first limit f frames rest, header_over limit f frames rest v over)
  where
    bytes : Bytes
    bytes = header_bytes f ++ rest
