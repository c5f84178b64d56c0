-- ===== src/Stratum/Job/Payout.antt =====
-- stratum/job.cpp: the outputs of a coinbase that the pool pays, the miner's and the donation.
use erikslund_solo_pool.Prelude.{
  ℕ, ◌+◌, ◌^◌, ◌≤◌, ◌<◌, ◌≡◌, not, ◌&&◌, List, [], ◌∷◌, Bytes, length, ◌==◌, Bool-cases, inl, inr,
  arith,
}
use erikslund_solo_pool.Prelude.Double.{Double}
use erikslund_solo_pool.Bitcoin.Coinbase.{CoinbaseOutput}
use erikslund_solo_pool.Stratum.Job.{Job}
use erikslund_solo_pool.Stratum.Job.Work.{donation_amount, payout_outputs}

-- The sum of the values.
unfoldable pub total : List CoinbaseOutput → ℕ
total [] = 0
total (output ∷ outputs) = output.value + total outputs

module _ (F : Double) where
  -- When the donation is at most the value of the coinbase, a number of 64 bits, then the outputs that
  -- the pool pays sum up to that value: nothing of the reward is lost, and nothing is made.
  pub total-payout_outputs :
      (job : Job F.Value) (payout_script : Bytes)
      → job.coinbase_value < 2 ^ 64
      → donation_amount F job ≤ job.coinbase_value
      → total (payout_outputs F job payout_script) ≡ job.coinbase_value
  unfolding total payout_outputs
  total-payout_outputs job payout_script small covered =
      elim (Bool-cases
        (F.less F.zero_value job.donation_percent && not (length job.donation_script == 0))) [
          | inl donates ↦ rw donates (omega arith)
          | inr keeps ↦ rw keeps (omega arith)
        ]
