-- ===== src/Stats/ShareAccounting/Runs.antt =====
-- The accounting of a worker after any calls of its methods, by any of its sessions.
use erikslund_solo_pool.Prelude.{ℕ, suc, ◌+◌, ◌%◌, ◌^◌, ◌≤◌, ◌<◌, ◌≡◌, ◌∙◌, List, [], ◌∷◌, arith}
use erikslund_solo_pool.Prelude.Int.{ℤ, pos_part, neg_part, max_ℤ}
use erikslund_solo_pool.Prelude.Double.{Double}
use erikslund_solo_pool.Stats.ShareAccounting.{
  WorkerAccounting, new_accounting, touch, note_accepted, note_rejected, recover,
}

-- A call, with what the clocks show at it.
pub data Call (Value : Type 0) : Type 0 where
  touched : ℤ → Call Value
  noted_accepted : Value → Value → ℤ → Value → Call Value
  noted_rejected : ℤ → Call Value
  recovered : ℕ → ℕ → Value → ℤ → List Value → Value → Value → Call Value

abbrev pub IsBefore : ℤ → ℤ → Type 0
IsBefore a b = pos_part a + neg_part b ≤ pos_part b + neg_part a

module _ (F : Double) where
  abbrev pub apply : WorkerAccounting F.Value → Call F.Value → WorkerAccounting F.Value
  apply a (touched now) = touch F a now
  apply a (noted_accepted credited difficulty now steady) =
      note_accepted F a credited difficulty now steady
  apply a (noted_rejected now) = note_rejected F a now
  apply a (recovered taken refused best last rates steady age) =
      recover F a taken refused best last rates steady age

  abbrev pub run : WorkerAccounting F.Value → List (Call F.Value) → WorkerAccounting F.Value
  run a [] = a
  run a (call ∷ calls) = run (apply a call) calls

  -- What the calls add to the two counters.
  abbrev pub accepted_total : List (Call F.Value) → ℕ
  accepted_total [] = 0
  accepted_total (touched now ∷ calls) = accepted_total calls
  accepted_total (noted_accepted c d now steady ∷ calls) = suc (accepted_total calls)
  accepted_total (noted_rejected now ∷ calls) = accepted_total calls
  accepted_total (recovered taken refused b l rates steady age ∷ calls) =
      taken + accepted_total calls

  abbrev pub rejected_total : List (Call F.Value) → ℕ
  rejected_total [] = 0
  rejected_total (touched now ∷ calls) = rejected_total calls
  rejected_total (noted_accepted c d now steady ∷ calls) = rejected_total calls
  rejected_total (noted_rejected now ∷ calls) = suc (rejected_total calls)
  rejected_total (recovered taken refused b l rates steady age ∷ calls) =
      refused + rejected_total calls

  max_ℤ-IsBefore : (a b now : ℤ) → IsBefore a b → IsBefore (max_ℤ a now) (max_ℤ b now)
  max_ℤ-IsBefore a b now h = ground arith

  max_ℤ_after : (a b now : ℤ) → IsBefore a b → IsBefore a (max_ℤ b now)
  max_ℤ_after a b now h = ground arith

  -- A counter that is advanced and then advanced again wraps as if at once.
  wrapped_twice : (n k m : ℕ) → ((n + k) % 2 ^ 64 + m) % 2 ^ 64 ≡ (n + (k + m)) % 2 ^ 64
  wrapped_twice n k m = omega arith

  wrapped_suc : (n m : ℕ) → (suc n % 2 ^ 64 + m) % 2 ^ 64 ≡ (n + suc m) % 2 ^ 64
  wrapped_suc n m = omega arith

  run_from :
      (a : WorkerAccounting F.Value) (calls : List (Call F.Value))
      → IsBefore a.last_share_ts a.last_activity_ts
      → a.shares_accepted < 2 ^ 64
      → a.shares_rejected < 2 ^ 64
      → IsBefore (run a calls).last_share_ts (run a calls).last_activity_ts
        × ((run a calls).shares_accepted ≡ (a.shares_accepted + accepted_total calls) % 2 ^ 64)
        × ((run a calls).shares_rejected ≡ (a.shares_rejected + rejected_total calls) % 2 ^ 64)
  unfolding touch note_accepted note_rejected recover
  run_from a [] h u v = (h, omega (arith, u), omega (arith, v))
  run_from a (touched now ∷ calls) h u v =
      run_from (touch F a now) calls (max_ℤ_after a.last_share_ts a.last_activity_ts now h) u v
  run_from a (noted_accepted c d now steady ∷ calls) h u v =
      let (t, x, y) =
        run_from (note_accepted F a c d now steady) calls
          (max_ℤ-IsBefore a.last_share_ts a.last_activity_ts now h) (omega arith) v in
      (t, x ∙ wrapped_suc a.shares_accepted (accepted_total calls), y)
  run_from a (noted_rejected now ∷ calls) h u v =
      let (t, x, y) =
        run_from (note_rejected F a now) calls
          (max_ℤ_after a.last_share_ts a.last_activity_ts now h) u (omega arith) in
      (t, x, y ∙ wrapped_suc a.shares_rejected (rejected_total calls))
  run_from a (recovered taken refused best last rates steady age ∷ calls) h u v =
      let (t, x, y) =
        run_from (recover F a taken refused best last rates steady age) calls
          (max_ℤ-IsBefore a.last_share_ts a.last_activity_ts last h) (omega arith) (omega arith) in
      (
        t,
        x ∙ wrapped_twice a.shares_accepted taken (accepted_total calls),
        y ∙ wrapped_twice a.shares_rejected refused (rejected_total calls),
      )

  -- After any calls on a new accounting, in any order: the last share is not later than the last
  -- activity, and the counters are the numbers of accepted and of rejected shares that were noted, with
  -- those that were recovered, modulo 2^64.
  pub run-new_accounting :
      (start : F.Value) (calls : List (Call F.Value))
      → let a = run (new_accounting F start) calls in
        IsBefore a.last_share_ts a.last_activity_ts
        × (a.shares_accepted ≡ accepted_total calls % 2 ^ 64)
        × (a.shares_rejected ≡ rejected_total calls % 2 ^ 64)
  unfolding new_accounting
  run-new_accounting start calls =
      let (t, x, y) =
        run_from (new_accounting F start) calls (omega arith) (omega arith) (omega arith) in
      (t, omega (arith, x), omega (arith, y))
