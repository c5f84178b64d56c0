-- ===== src/Stratum/Vardiff.antt =====
-- stratum/session.cpp: the choice of a session's difficulty, over doubles.
pub mod Range
use erikslund_solo_pool.Prelude.{
  ℕ, ◌^◌, Bool, true, false, not, ◌&&◌, ◌||◌, Option, none, some, if◌then◌else◌,
}
use erikslund_solo_pool.Prelude.Double.{Double, max_of, min_of}

module _ (F : Double) where
  -- `std::clamp`.
  unfoldable pub clamp : F.Value → F.Value → F.Value → F.Value
  clamp value low high = if F.less value low then low else if F.less high value then high else value

  unfoldable pub difficulty_cap : F.Value → F.Value
  difficulty_cap max_difficulty =
      if F.less F.zero_value max_difficulty then max_difficulty else F.of_nat (10 ^ 12)

  unfoldable pub vardiff_next : F.Value → F.Value → F.Value → F.Value → F.Value → F.Value
  vardiff_next current shares_per_minute target min_difficulty max_difficulty =
      let cap = difficulty_cap max_difficulty in
      let clamped = clamp current min_difficulty cap in
      if F.less (F.mul target F.two) shares_per_minute && F.less clamped cap
      then min_of F cap (F.mul clamped F.two)
      else if F.less shares_per_minute (F.div target F.two)
      then max_of F min_difficulty (F.div clamped F.two)
      else clamped

  -- `suggested <= 0.0` is false of a number exactly when 0 is less than it.
  unfoldable pub clamp_suggested_difficulty : F.Value → F.Value → F.Value → Option F.Value
  clamp_suggested_difficulty suggested min_difficulty max_difficulty =
      if not (F.is_finite suggested) || not (F.less F.zero_value suggested)
      then none
      else let clamped = max_of F suggested min_difficulty in
        some
          (if F.less F.zero_value max_difficulty then min_of F clamped max_difficulty else clamped)
