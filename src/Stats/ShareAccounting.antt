-- ===== src/Stats/ShareAccounting.antt =====
-- stats/share_accounting.cpp: the counters of a worker, which its sessions share under a mutex. Every
-- method is one step; the clocks are arguments. The counters have 64 bits and wrap around.
pub mod Runs
use erikslund_solo_pool.Prelude.{ℕ, suc, ◌+◌, ◌%◌, ◌^◌, List}
use erikslund_solo_pool.Prelude.Int.{ℤ, pos, max_ℤ}
use erikslund_solo_pool.Prelude.Double.{Double, max_of}
use erikslund_solo_pool.Stats.Hashrate.{
  DecayingWindows, hashrate_window_sizes, new_windows, add_rate, snapshot_rates, seed_rates,
}

pub record WorkerAccounting (Value : Type 0) : Type 0 where
  pub hashrate : DecayingWindows Value
  pub shares_accepted : ℕ
  pub shares_rejected : ℕ
  pub best_difficulty : Value
  pub last_share_ts : ℤ
  pub last_activity_ts : ℤ

pub record WorkerAccountingSnapshot (Value : Type 0) : Type 0 where
  pub shares_accepted : ℕ
  pub shares_rejected : ℕ
  pub best_difficulty : Value
  pub last_share_ts : ℤ
  pub hashrate_windows : List Value

module _ (F : Double) where
  unfoldable pub new_accounting : F.Value → WorkerAccounting F.Value
  new_accounting start = record {
    hashrate = new_windows F hashrate_window_sizes start;
    shares_accepted = 0;
    shares_rejected = 0;
    best_difficulty = F.zero_value;
    last_share_ts = pos 0;
    last_activity_ts = pos 0;
  }

  unfoldable pub touch : WorkerAccounting F.Value → ℤ → WorkerAccounting F.Value
  touch a now_wall = record a { last_activity_ts = max_ℤ a.last_activity_ts now_wall }

  unfoldable pub note_accepted :
      WorkerAccounting F.Value → F.Value → F.Value → ℤ → F.Value → WorkerAccounting F.Value
  note_accepted a credited share_difficulty now_wall now_steady = record a {
    hashrate = add_rate F a.hashrate credited now_steady;
    shares_accepted = suc a.shares_accepted % 2 ^ 64;
    best_difficulty = max_of F a.best_difficulty share_difficulty;
    last_share_ts = max_ℤ a.last_share_ts now_wall;
    last_activity_ts = max_ℤ a.last_activity_ts now_wall;
  }

  unfoldable pub note_rejected : WorkerAccounting F.Value → ℤ → WorkerAccounting F.Value
  note_rejected a now_wall = record a {
    shares_rejected = suc a.shares_rejected % 2 ^ 64;
    last_activity_ts = max_ℤ a.last_activity_ts now_wall;
  }

  unfoldable pub snapshot_accounting :
      WorkerAccounting F.Value → F.Value → WorkerAccountingSnapshot F.Value
  snapshot_accounting a now_steady = record {
    shares_accepted = a.shares_accepted;
    shares_rejected = a.shares_rejected;
    best_difficulty = a.best_difficulty;
    last_share_ts = a.last_share_ts;
    hashrate_windows = snapshot_rates F a.hashrate now_steady;
  }

  unfoldable pub activity : WorkerAccounting F.Value → ℤ × ℤ
  activity a = (a.last_activity_ts, a.last_share_ts)

  unfoldable pub recover :
      WorkerAccounting F.Value
      → ℕ
      → ℕ
      → F.Value
      → ℤ
      → List F.Value
      → F.Value
      → F.Value
      → WorkerAccounting F.Value
  recover a accepted rejected best_difficulty last_share_ts rates now_steady age_seconds =
      record a {
        shares_accepted = (a.shares_accepted + accepted) % 2 ^ 64;
        shares_rejected = (a.shares_rejected + rejected) % 2 ^ 64;
        best_difficulty = max_of F a.best_difficulty best_difficulty;
        last_share_ts = max_ℤ a.last_share_ts last_share_ts;
        last_activity_ts = max_ℤ a.last_activity_ts last_share_ts;
        hashrate = seed_rates F a.hashrate rates now_steady age_seconds;
      }
