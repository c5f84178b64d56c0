-- ===== src/Sv2/Codec/Delivery.antt =====
-- sv2/codec.cpp: the frames of a stream, however its bytes are cut into calls of `push`.
use erikslund_solo_pool.Prelude.{
  ℕ, ◌≤◌, ◌<◌, ◌≡◌, refl, sym, ap, ◌∙◌, List, [], ◌∷◌, ◌++◌, Bytes, length, arith, All, append-nil,
  append_assoc, Throws, ok, bind,
}
use mathlib.Core.List.{flatten}
use erikslund_solo_pool.Sv2.Codec.{
  CodecError, Frame, FrameDecoder, new_decoder, Pushed, completed, failed, stuck, push_loop, push,
  payload_exceeds_limit, encode_frame,
}
use erikslund_solo_pool.Sv2.Codec.Rounds.{IsReady}
use erikslund_solo_pool.Sv2.Codec.Stream.{after, push_loop-append}
use erikslund_solo_pool.Sv2.Codec.Frames.{
  IsFrame, frame_bytes, header_bytes, encode_frame_bytes, frame_loop, frame_over, idle-IsReady,
}
use erikslund_solo_pool.Sv2.Codec.Chunks.{
  with_frames, push_loop-frames, Returns, push-Returns, push_chunks,
}

chunk_step :
    (p : Pushed) (cs : List Bytes)
    → Returns p
    → ((d : FrameDecoder) → IsReady d → push_chunks d cs ≡ push d (flatten cs))
    → elim p [
      | completed frames d ↦ with_frames frames (push_chunks d cs)
      | failed e frames d ↦ failed e frames d
      | stuck ↦ stuck
    ]
      ≡ after p (flatten cs)
unfolding after push
chunk_step (completed frames d) cs ready chunks =
    ap (with_frames frames) (chunks d ready)
    ∙ sym (push_loop-frames (length (flatten cs)) d frames [] (flatten cs))
    ∙ rw (append-nil frames)
chunk_step (failed e frames d) cs ready chunks = refl
chunk_step stuck cs impossible chunks = absurd impossible

-- How a stream is cut into calls changes nothing: the frames, the error and the state are those of
-- one call with all of its bytes.
pub push_chunks-flatten :
    (d : FrameDecoder) (cs : List Bytes) → IsReady d → push_chunks d cs ≡ push d (flatten cs)
unfolding push_chunks flatten
push_chunks-flatten d [] ready = unfold push push_loop in refl
push_chunks-flatten d (c ∷ cs) ready =
    chunk_step (push d c) cs (push-Returns d c ready)
      (λ d' ready'. push_chunks-flatten d' cs ready')
    ∙ (unfold push in sym (push_loop-append (length c) d [] c (flatten cs) ready (omega arith)))

-- What a sender writes for several frames.
unfoldable pub encode_each : List Frame → Throws CodecError Bytes
encode_each [] = ok []
encode_each (f ∷ fs) =
    bind (encode_frame f) (λ bytes. bind (encode_each fs) (λ more. ok (bytes ++ more)))

-- A frame that fits the wire, and whose payload the receiver accepts.
abbrev pub IsAccepted : ℕ → Frame → Type 0
IsAccepted limit f = IsFrame f × (length f.payload ≤ limit)

wire : List Frame → Bytes
wire [] = []
wire (f ∷ fs) = frame_bytes f ++ wire fs

encode_each-wire :
    (limit : ℕ) (fs : List Frame) → All (IsAccepted limit) fs → encode_each fs ≡ ok (wire fs)
unfolding encode_each wire
encode_each-wire limit [] h = refl
encode_each-wire limit (f ∷ fs) h = rw (encode_frame_bytes f h.0.0, encode_each-wire limit fs h.1)

wire_loop :
    (limit : ℕ) (before fs : List Frame) (rest : Bytes)
    → All (IsAccepted limit) fs
    → push_loop (length (wire fs ++ rest)) (new_decoder limit) before (wire fs ++ rest)
      ≡ push_loop (length rest) (new_decoder limit) (before ++ fs) rest
unfolding wire
wire_loop limit before [] rest h = rw (append-nil before)
wire_loop limit before (f ∷ fs) rest h = rw (append_assoc (frame_bytes f) (wire fs) rest) (
    frame_loop limit f before (wire fs ++ rest) h.0.0 h.0.1
    ∙ wire_loop limit (before ++ (f ∷ [])) fs rest h.1
    ∙ rw (append_assoc before (f ∷ []) fs))

push-wire :
    (limit : ℕ) (fs : List Frame)
    → All (IsAccepted limit) fs
    → push (new_decoder limit) (wire fs) ≡ completed fs (new_decoder limit)
unfolding push
push-wire limit fs h =
    ap (λ (bytes : Bytes). push_loop (length bytes) (new_decoder limit) [] bytes)
      (sym (append-nil (wire fs)))
    ∙ wire_loop limit [] fs [] h
    ∙ (unfold push_loop in refl)

-- Frames that are encoded one behind another, sent, and received in chunks of any sizes are decoded
-- to the same frames in order, and the decoder is back in its first state.
pub push_chunks-encode_each :
    (limit : ℕ) (fs : List Frame) (chunks : List Bytes)
    → All (IsAccepted limit) fs
    → encode_each fs ≡ ok (flatten chunks)
    → push_chunks (new_decoder limit) chunks ≡ completed fs (new_decoder limit)
push_chunks-encode_each limit fs chunks h sent =
    push_chunks-flatten (new_decoder limit) chunks (idle-IsReady limit)
    ∙ ap (push (new_decoder limit)) same
    ∙ push-wire limit fs h
  where
    same : flatten chunks ≡ wire fs
    same = cc (encode_each-wire limit fs h)

-- A frame with a payload over the receiver's limit, behind frames that it accepts: the call throws
-- with just those frames, reads nothing behind the header, and resets the decoder.
pub push-over_limit :
    (limit : ℕ) (fs : List Frame) (f : Frame) (sent rest : Bytes)
    → All (IsAccepted limit) fs
    → IsFrame f
    → limit < length f.payload
    → encode_each fs ≡ ok sent
    → push (new_decoder limit) (sent ++ (header_bytes f ++ rest))
      ≡ failed payload_exceeds_limit fs (new_decoder limit)
unfolding push
push-over_limit limit fs f sent rest h v over e =
    rw same (wire_loop limit [] fs (header_bytes f ++ rest) h ∙ frame_over limit f fs rest v over)
  where
    same : sent ≡ wire fs
    same = cc (encode_each-wire limit fs h)
