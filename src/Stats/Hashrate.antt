-- ===== src/Stats/Hashrate.antt =====
-- stats/hashrate.hpp: rates that decay, one for each window. A clock never reads as a NaN, so that
-- `elapsed <= 0.0` is the contrary of 0 being less.
use erikslund_solo_pool.Prelude.{ℕ, ◌∷◌, [], List, not, if◌then◌else◌, replicate, length}
use erikslund_solo_pool.Prelude.Double.{Double, max_of, min_of}

abbrev pub hashrate_window_sizes : List ℕ
hashrate_window_sizes = 60 ∷ 300 ∷ 900 ∷ 3600 ∷ 21600 ∷ 86400 ∷ 604800 ∷ []

pub record DecayingWindows (Value : Type 0) : Type 0 where
  pub windows : List ℕ
  pub rates : List Value
  pub last : Value

module _ (F : Double) where
  unfoldable pub decay_time : F.Value → F.Value → F.Value → F.Value → F.Value
  decay_time value addend elapsed interval =
      if not (F.less F.zero_value elapsed)
      then value
      else let exponent = min_of F (F.div elapsed interval) (F.of_nat 36) in
        let proportion = F.sub (F.of_nat 1) (F.div (F.of_nat 1) (F.exp exponent)) in
        F.div (F.add value (F.mul (F.div addend elapsed) proportion))
          (F.add (F.of_nat 1) proportion)

  -- Every rate with the window of its index.
  decay_each : List ℕ → List F.Value → F.Value → F.Value → List F.Value
  decay_each [] rates addend elapsed = []
  decay_each (window ∷ windows) [] addend elapsed = []
  decay_each (window ∷ windows) (rate ∷ rates) addend elapsed =
      decay_time rate addend elapsed (F.of_nat window) ∷ decay_each windows rates addend elapsed

  -- The constructor.
  unfoldable pub new_windows : List ℕ → F.Value → DecayingWindows F.Value
  new_windows windows start = record {
    windows = windows;
    rates = replicate (length windows) F.zero_value;
    last = start;
  }

  unfoldable pub add_rate : DecayingWindows F.Value → F.Value → F.Value → DecayingWindows F.Value
  unfolding decay_each
  add_rate w addend now =
      let elapsed = F.sub now w.last in
      if not (F.less F.zero_value elapsed)
      then w
      else record w { last = now; rates = decay_each w.windows w.rates addend elapsed }

  unfoldable pub snapshot_rates : DecayingWindows F.Value → F.Value → List F.Value
  unfolding decay_each
  snapshot_rates w now =
      let elapsed = F.sub now w.last in
      if not (F.less F.zero_value elapsed)
      then w.rates
      else decay_each w.windows w.rates F.zero_value elapsed

  unfoldable pub seed_rates :
      DecayingWindows F.Value → List F.Value → F.Value → F.Value → DecayingWindows F.Value
  seed_rates w rates now age_seconds = record w {
    rates = rates;
    last = F.sub now (max_of F age_seconds F.zero_value);
  }
