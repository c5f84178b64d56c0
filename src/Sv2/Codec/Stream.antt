-- ===== src/Sv2/Codec/Stream.antt =====
-- sv2/codec.cpp, FrameDecoder::push as a whole: it ends, and how a stream is cut into calls is
-- of no consequence.
use erikslund_solo_pool.Prelude.{
  ℕ, zero, suc, ◌+◌, ◌≤◌, ◌<◌, ◌≡◌, refl, sym, ◌∙◌, List, [], ◌∷◌, ◌++◌, Bytes, length, take, drop,
  min, Bool-cases, inl, inr, arith, length-append, length-drop, length-take, take-append_le,
  drop-append_le, take-append_add, drop-append_add, take_all, drop_all, append-nil, ltb, ltb→lt,
}
use erikslund_solo_pool.Sv2.Codec.{
  Frame, FrameDecoder, Round, next, over_limit, round, Pushed, completed, failed, stuck, push_loop,
  payload_exceeds_limit,
}
use erikslund_solo_pool.Sv2.Codec.Rounds.{
  IsReady, need, need_pos, absorb, absorb-append, need-absorb, settle, round-settle, settle-append,
  settle-absorb, with_rest, Keeps, settle-Keeps,
}

-- The loop from the end of a round on.
unfoldable pub resume : ℕ → Round → Pushed
resume fuel (next d frames rest) = push_loop fuel d frames rest
resume fuel (over_limit d frames) = failed payload_exceeds_limit frames d

pub push_loop-resume :
    (fuel : ℕ) (d : FrameDecoder) (frames : List Frame) (b : ℕ) (bs : Bytes) (r : Round)
    → round d frames (b ∷ bs) ≡ r
    → push_loop (suc fuel) d frames (b ∷ bs) ≡ resume fuel r
unfolding push_loop resume
push_loop-resume fuel d frames b bs (next d' frames' rest) e = rw (e, push_loop)
push_loop-resume fuel d frames b bs (over_limit d' frames') e = rw (e, push_loop)

-- The round on `bytes`, which copies `copied` of them.
abbrev pub copied : FrameDecoder → Bytes → ℕ
copied d bytes = min (need d) (length bytes)

abbrev pub first_round : FrameDecoder → List Frame → Bytes → Round
first_round d frames bytes =
    settle (absorb d (take (copied d bytes) bytes)) frames (drop (copied d bytes) bytes)

pub push_loop_step :
    (fuel : ℕ) (d : FrameDecoder) (frames : List Frame) (bytes : Bytes)
    → 0 < length bytes
    → push_loop (suc fuel) d frames bytes ≡ resume fuel (first_round d frames bytes)
push_loop_step fuel d frames [] h = absurd (omega arith)
push_loop_step fuel d frames (b ∷ bs) h =
    push_loop-resume fuel d frames b bs _ (round-settle d frames (b ∷ bs))

pub first_round-Keeps :
    (d : FrameDecoder) (frames : List Frame) (bytes : Bytes)
    → IsReady d
    → Keeps (first_round d frames bytes) (drop (copied d bytes) bytes)
first_round-Keeps d frames bytes ready =
    settle-Keeps d frames (take (copied d bytes) bytes) _ ready
      (omega (arith, length-take (copied d bytes) bytes))

pub left_shorter :
    (d : FrameDecoder) (bytes : Bytes)
    → IsReady d
    → 0 < length bytes
    → length (drop (copied d bytes) bytes) < length bytes
left_shorter d bytes ready h = omega (arith, need_pos d ready, length-drop (copied d bytes) bytes)

resume_cong :
    (n k : ℕ) (r : Round) (rest : Bytes)
    → Keeps r rest
    → ((d : FrameDecoder) (frames : List Frame)
        → IsReady d
        → push_loop n d frames rest ≡ push_loop k d frames rest)
    → resume n r ≡ resume k r
unfolding resume
resume_cong n k (next d frames rest') rest (ready, e) same = rw e (same d frames ready)
resume_cong n k (over_limit d frames) rest ready same = refl

-- Any fuel that covers the bytes gives the same result.
pub push_loop_fuel :
    (n k : ℕ) (d : FrameDecoder) (frames : List Frame) (bytes : Bytes)
    → IsReady d
    → length bytes ≤ n
    → length bytes ≤ k
    → push_loop n d frames bytes ≡ push_loop k d frames bytes
push_loop_fuel n k d frames [] ready hn hk = unfold push_loop in refl
push_loop_fuel zero k d frames (b ∷ bs) ready hn hk = absurd (omega arith)
push_loop_fuel (suc n) zero d frames (b ∷ bs) ready hn hk = absurd (omega arith)
push_loop_fuel (suc n) (suc k) d frames (b ∷ bs) ready hn hk =
    push_loop_step n d frames (b ∷ bs) (omega arith)
    ∙ resume_cong n k (first_round d frames (b ∷ bs)) (drop (copied d (b ∷ bs)) (b ∷ bs))
        (first_round-Keeps d frames (b ∷ bs) ready)
        (λ d' frames' ready'.
          push_loop_fuel n k d' frames' _ ready' (omega (arith, shorter)) (omega (arith, shorter)))
    ∙ sym (push_loop_step k d frames (b ∷ bs) (omega arith))
  where
    shorter : length (drop (copied d (b ∷ bs)) (b ∷ bs)) < length (b ∷ bs)
    shorter = left_shorter d (b ∷ bs) ready (omega arith)

-- Going on with more bytes from where a call left the decoder. After an error nothing is pushed.
unfoldable pub after : Pushed → Bytes → Pushed
after (completed frames d) more = push_loop (length more) d frames more
after (failed e frames d) more = failed e frames d
after stuck more = stuck

-- A round that fills the header or the payload does not look at what is behind it.
first_round-append :
    (d : FrameDecoder) (frames : List Frame) (xs ys : Bytes)
    → need d ≤ length xs
    → first_round d frames (xs ++ ys) ≡ with_rest (first_round d frames xs) ys
first_round-append d frames xs ys full =
    let whole : copied d (xs ++ ys) ≡ need d = omega (arith, length-append xs ys) in
    let part : copied d xs ≡ need d = omega arith in
    rw (whole, part, take-append_le (need d) xs ys full, drop-append_le (need d) xs ys full)
      (settle-append (absorb d (take (need d) xs)) frames (drop (need d) xs) ys)

-- A round that does not fill them keeps all it was given, and the next one goes on from there.
first_round_short :
    (d : FrameDecoder) (frames : List Frame) (xs : Bytes)
    → IsReady d
    → length xs < need d
    → first_round d frames xs ≡ next (absorb d xs) frames []
first_round_short d frames xs ready short =
    let all : copied d xs ≡ length xs = omega arith in
    rw (all, take_all (length xs) xs (omega arith), drop_all (length xs) xs (omega arith))
      (settle-absorb d frames xs [] ready short).0

first_round_resumed :
    (d : FrameDecoder) (frames : List Frame) (xs ys : Bytes)
    → length xs < need d
    → first_round d frames (xs ++ ys) ≡ first_round (absorb d xs) frames ys
first_round_resumed d frames xs ys short =
    let more = copied (absorb d xs) ys in
    let sum : copied d (xs ++ ys) ≡ length xs + more =
      omega (arith, length-append xs ys, need-absorb d xs) in
    rw (
      take-append_add (copied d (xs ++ ys)) more xs ys sum,
      drop-append_add (copied d (xs ++ ys)) more xs ys sum,
      ← absorb-append d xs (take more ys),
    )

resume-after :
    (n : ℕ) (r : Round) (rest more : Bytes) (k : ℕ)
    → Keeps r rest
    → length (rest ++ more) ≤ k
    → ((d : FrameDecoder) (frames : List Frame)
        → IsReady d
        → push_loop (length (rest ++ more)) d frames (rest ++ more)
          ≡ after (push_loop n d frames rest) more)
    → resume k (with_rest r more) ≡ after (resume n r) more
unfolding resume
resume-after n (next d frames rest') rest more k (ready, e) fits same = rw e (
    push_loop_fuel k (length (rest ++ more)) d frames (rest ++ more) ready fits (omega arith)
    ∙ same d frames ready)
resume-after n (over_limit d frames) rest more k ready fits same = unfold after in refl

-- Bytes that fill neither end the loop at once.
push_loop_short :
    (n : ℕ) (d : FrameDecoder) (frames : List Frame) (xs : Bytes)
    → IsReady d
    → 0 < length xs
    → length xs < need d
    → push_loop (suc n) d frames xs ≡ completed frames (absorb d xs)
push_loop_short n d frames xs ready some_bytes short =
    push_loop_step n d frames xs some_bytes
    ∙ rw (first_round_short d frames xs ready short) (unfold resume push_loop in refl)

push_loop_resumed :
    (d : FrameDecoder) (frames : List Frame) (xs ys : Bytes)
    → IsReady d
    → 0 < length xs
    → length xs < need d
    → push_loop (length (xs ++ ys)) d frames (xs ++ ys)
      ≡ push_loop (length ys) (absorb d xs) frames ys
push_loop_resumed d frames (x ∷ xs) [] ready some_bytes short = rw (append-nil xs) (
    push_loop_short (length xs) d frames (x ∷ xs) ready some_bytes short
    ∙ (unfold push_loop in refl))
push_loop_resumed d frames [] ys ready some_bytes short = absurd (omega arith)
push_loop_resumed d frames (x ∷ xs) (y ∷ ys) ready some_bytes short =
    push_loop_step (length (xs ++ (y ∷ ys))) d frames (x ∷ (xs ++ (y ∷ ys))) (omega arith)
    ∙ rw (first_round_resumed d frames (x ∷ xs) (y ∷ ys) short) (
        sym (
          push_loop_step (length (xs ++ (y ∷ ys))) (absorb d (x ∷ xs)) frames (y ∷ ys)
            (omega arith)))
    ∙ push_loop_fuel (suc (length (xs ++ (y ∷ ys)))) (length (y ∷ ys)) (absorb d (x ∷ xs)) frames
        (y ∷ ys) (settle-absorb d frames (x ∷ xs) [] ready short).1
        (omega (arith, length-append xs (y ∷ ys))) (omega arith)

pub push_loop-append :
    (n : ℕ) (d : FrameDecoder) (frames : List Frame) (xs ys : Bytes)
    → IsReady d
    → length xs ≤ n
    → push_loop (length (xs ++ ys)) d frames (xs ++ ys) ≡ after (push_loop n d frames xs) ys
push_loop-append n d frames [] ys ready fits = unfold push_loop after in refl
push_loop-append zero d frames (x ∷ xs) ys ready fits = absurd (omega arith)
push_loop-append (suc n) d frames (x ∷ xs) ys ready fits =
    elim (Bool-cases (ltb (length (x ∷ xs)) (need d))) [
      | inl short ↦
          push_loop_resumed d frames (x ∷ xs) ys ready (omega arith) (ltb→lt _ _ short)
          ∙ rw (push_loop_short n d frames (x ∷ xs) ready (omega arith) (ltb→lt _ _ short))
              (unfold after in refl)
      | inr full ↦
          push_loop_step (length (xs ++ ys)) d frames (x ∷ (xs ++ ys)) (omega arith)
          ∙ rw
              (
                first_round-append d frames (x ∷ xs) ys (ground arith),
                push_loop_step n d frames (x ∷ xs) (omega arith),
              )
              (resume-after n (first_round d frames (x ∷ xs)) (drop (copied d (x ∷ xs)) (x ∷ xs)) ys
                (length (xs ++ ys)) (first_round-Keeps d frames (x ∷ xs) ready)
                (omega (
                  arith,
                  shorter,
                  length-append xs ys,
                  length-append (drop (copied d (x ∷ xs)) (x ∷ xs)) ys,
                ))
                (λ d' frames' ready'.
                  push_loop-append n d' frames' _ ys ready' (omega (arith, shorter))))
    ]
  where
    shorter : length (drop (copied d (x ∷ xs)) (x ∷ xs)) < length (x ∷ xs)
    shorter = left_shorter d (x ∷ xs) ready (omega arith)
