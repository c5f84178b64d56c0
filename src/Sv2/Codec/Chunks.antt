-- ===== src/Sv2/Codec/Chunks.antt =====
-- sv2/codec.cpp, FrameDecoder::push called again and again, as a connection does with what it reads.
use erikslund_solo_pool.Prelude.{
  ℕ, zero, suc, ◌≤◌, ◌≡◌, refl, sym, ap, ◌∙◌, List, [], ◌∷◌, ◌++◌, Bytes, length, arith, ◌<◌, drop,
  append_assoc,
}
use erikslund_solo_pool.Sv2.Codec.{
  Frame, FrameDecoder, complete, Round, next, over_limit, round, Pushed, completed, failed, stuck,
  push_loop, push, payload_exceeds_limit,
}
use erikslund_solo_pool.Sv2.Codec.Rounds.{IsReady, Keeps}
use erikslund_solo_pool.Sv2.Codec.Stream.{
  resume, push_loop-resume, push_loop_step, first_round, first_round-Keeps, copied, left_shorter,
}

-- The frames of earlier calls in front of those of this one.
abbrev pub with_frames : List Frame → Pushed → Pushed
with_frames before (completed frames d) = completed (before ++ frames) d
with_frames before (failed e frames d) = failed e (before ++ frames) d
with_frames before stuck = stuck

abbrev round_with_frames : List Frame → Round → Round
round_with_frames before (next d frames rest) = next d (before ++ frames) rest
round_with_frames before (over_limit d frames) = over_limit d (before ++ frames)

complete-append :
    (d : FrameDecoder) (before frames : List Frame)
    → complete d (before ++ frames) ≡ ((complete d frames).0, before ++ (complete d frames).1)
unfolding complete
complete-append d before frames = ground (arith, append_assoc before frames (d.frame ∷ []))

round-append :
    (d : FrameDecoder) (before frames : List Frame) (bytes : Bytes)
    → round d (before ++ frames) bytes ≡ round_with_frames before (round d frames bytes)
unfolding round
round-append d before frames bytes = simp complete-append (ground arith)

resume-frames :
    (n : ℕ) (before : List Frame) (r : Round)
    → ((d : FrameDecoder) (frames : List Frame) (bytes : Bytes)
        → push_loop n d (before ++ frames) bytes ≡ with_frames before (push_loop n d frames bytes))
    → resume n (round_with_frames before r) ≡ with_frames before (resume n r)
unfolding resume
resume-frames n before (next d frames rest) loop = loop d frames rest
resume-frames n before (over_limit d frames) loop = refl

pub push_loop-frames :
    (n : ℕ) (d : FrameDecoder) (before frames : List Frame) (bytes : Bytes)
    → push_loop n d (before ++ frames) bytes ≡ with_frames before (push_loop n d frames bytes)
push_loop-frames n d before frames [] = unfold push_loop in refl
push_loop-frames zero d before frames (b ∷ bs) = unfold push_loop in refl
push_loop-frames (suc n) d before frames (b ∷ bs) =
    push_loop-resume n d (before ++ frames) b bs _ (round-append d before frames (b ∷ bs))
    ∙ resume-frames n before (round d frames (b ∷ bs))
        (λ d' frames' bytes. push_loop-frames n d' before frames' bytes)
    ∙ ap (with_frames before) (sym (push_loop-resume n d frames b bs _ refl))

-- A call that returns leaves the decoder ready for the next; no call gets stuck.
abbrev pub Returns : Pushed → Type 0
Returns (completed frames d) = IsReady d
Returns (failed e frames d) = IsReady d × (e ≡ payload_exceeds_limit)
Returns stuck = ⊥

resume-Returns :
    (n : ℕ) (r : Round) (rest : Bytes)
    → Keeps r rest
    → ((d : FrameDecoder) (frames : List Frame) → IsReady d → Returns (push_loop n d frames rest))
    → Returns (resume n r)
unfolding resume
resume-Returns n (next d frames rest') rest (ready, e) loop = rw e (loop d frames ready)
resume-Returns n (over_limit d frames) rest ready loop = (ready, refl)

push_loop-Returns :
    (n : ℕ) (d : FrameDecoder) (frames : List Frame) (bytes : Bytes)
    → IsReady d
    → length bytes ≤ n
    → Returns (push_loop n d frames bytes)
push_loop-Returns n d frames [] ready fits = unfold push_loop in ready
push_loop-Returns zero d frames (b ∷ bs) ready fits = absurd (omega arith)
push_loop-Returns (suc n) d frames (b ∷ bs) ready fits =
    rw (push_loop_step n d frames (b ∷ bs) (omega arith)) (
      resume-Returns n (first_round d frames (b ∷ bs)) (drop (copied d (b ∷ bs)) (b ∷ bs))
        (first_round-Keeps d frames (b ∷ bs) ready)
        (λ d' frames' ready'. push_loop-Returns n d' frames' _ ready' (omega (arith, shorter))))
  where
    shorter : length (drop (copied d (b ∷ bs)) (b ∷ bs)) < length (b ∷ bs)
    shorter = left_shorter d (b ∷ bs) ready (omega arith)

-- A push always returns: with the frames that it completed, or with the error for a payload over
-- the limit; and the decoder can go on in both cases.
pub push-Returns : (d : FrameDecoder) (bytes : Bytes) → IsReady d → Returns (push d bytes)
unfolding push
push-Returns d bytes ready = push_loop-Returns (length bytes) d [] bytes ready (omega arith)

-- The calls of `push` on one chunk after another, up to the first that throws.
unfoldable pub push_chunks : FrameDecoder → List Bytes → Pushed
push_chunks d [] = completed [] d
push_chunks d (c ∷ cs) = elim (push d c) [
  | completed frames d' ↦ with_frames frames (push_chunks d' cs)
  | failed e frames d' ↦ failed e frames d'
  | stuck ↦ stuck
]
