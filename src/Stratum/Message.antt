-- ===== src/Stratum/Message.antt =====
-- stratum/message.hpp, message.cpp and util/json_number.hpp: the lines of the first protocol, those
-- read and those sent. Message/Parse.antt reads, Message/Lines.antt writes.
pub mod Parse
pub mod Lines
use erikslund_solo_pool.Prelude.{
  ℕ, zero, suc, ◌+◌, ◌-◌, Bool, true, false, not, ◌&&◌, ◌||◌, List, [], ◌∷◌, ◌++◌, map, Bytes,
  Option, none, some, length, ltb, ◌==◌, if◌then◌else◌, same_bytes, codes,
}

pub record StratumError : Type 0 where
  pub code : ℕ
  pub message : Bytes

abbrev pub err_other : StratumError
err_other = record { code = 20; message = codes "Other/unknown" }

abbrev pub err_stale : StratumError
err_stale = record { code = 21; message = codes "Job not found / stale" }

abbrev pub err_duplicate : StratumError
err_duplicate = record { code = 22; message = codes "Duplicate share" }

abbrev pub err_low_difficulty : StratumError
err_low_difficulty = record { code = 23; message = codes "Low difficulty share" }

abbrev pub err_unauthorized : StratumError
err_unauthorized = record { code = 24; message = codes "Unauthorized worker" }

abbrev pub err_not_subscribed : StratumError
err_not_subscribed = record { code = 25; message = codes "Not subscribed" }

abbrev pub max_json_depth : ℕ
max_json_depth = 64

is_opening : ℕ → Bool
is_opening c = c == b'{' || c == b'['

is_closing : ℕ → Bool
is_closing c = c == b'}' || c == b']'

-- What the loop keeps between two characters.
record Scan : Type 0 where
  depth : ℕ
  in_string : Bool
  escaped : Bool

-- One character; nothing when the depth is over the limit.
scan : Scan → ℕ → Option Scan
unfolding is_opening is_closing
scan s c =
    if s.in_string
    then (if s.escaped
        then some (record s { escaped = false })
        else if c == b'\\'
        then some (record s { escaped = true })
        else if c == b'"'
        then some (record s { in_string = false })
        else some s)
    else if c == b'"'
    then some (record s { in_string = true })
    else if is_opening c
    then (if ltb max_json_depth (s.depth + 1)
        then none
        else some (record s { depth = s.depth + 1 }))
    else if is_closing c && ltb 0 s.depth
    then some (record s { depth = s.depth - 1 })
    else some s

depth_loop : Bytes → Scan → Bool
unfolding scan
depth_loop [] s = true
depth_loop (c ∷ text) s = elim (scan s c) [ none ↦ false | some s' ↦ depth_loop text s' ]

unfoldable pub within_depth : Bytes → Bool
unfolding depth_loop
within_depth text = depth_loop text record { depth = 0; in_string = false; escaped = false }

pub record Request (RequestId Value : Type 0) : Type 0 where
  pub id : RequestId
  pub method : Bytes
  pub params : List Bytes
  pub configure_extensions : List Bytes
  pub configure_version_rolling : Bool
  pub version_rolling_mask_present : Bool
  pub version_rolling_mask : Option Bytes
  pub suggested_difficulty : Option Value

-- `std::optional::value_or`.
abbrev pub value_or {ℓ} : {A : Type ℓ} → Option A → A → A
value_or none default = default
value_or (some a) default = a

unfoldable pub is_some {ℓ} : {A : Type ℓ} → Option A → Bool
is_some none = false
is_some (some a) = true
