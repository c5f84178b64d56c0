-- ===== src/Prelude/Double.antt =====
-- `double`: its values and the operations that the program uses, all of them the compiler's and so
-- parameters of the model. `max` and `min` are those of the standard library.
use mathlib.Core.Bool.{Bool}
use Prim.Native.Nat.{ℕ}
use erikslund_solo_pool.Prelude.Int.{ℤ}
use erikslund_solo_pool.Prelude.Tests.{if◌then◌else◌}

pub record Double : Type 1 where
  pub Value : Type 0
  pub zero_value : Value
  pub two : Value
  pub sixty : Value
  pub infinity : Value
  pub of_nat : ℕ → Value
  pub ldexp : ℕ → ℤ → Value
  pub to_nat : Value → ℕ
  pub add : Value → Value → Value
  pub sub : Value → Value → Value
  pub mul : Value → Value → Value
  pub div : Value → Value → Value
  pub exp : Value → Value
  pub less : Value → Value → Bool
  pub same : Value → Value → Bool
  pub is_finite : Value → Bool

module _ (F : Double) where
  abbrev pub max_of : F.Value → F.Value → F.Value
  max_of a b = if F.less a b then b else a

  abbrev pub min_of : F.Value → F.Value → F.Value
  min_of a b = if F.less b a then b else a
