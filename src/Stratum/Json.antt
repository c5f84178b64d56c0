-- ===== src/Stratum/Json.antt =====
-- The JSON library, glaze, as the first protocol uses it: its values (`glz::generic`), what they are
-- read from and written to. All of it is a parameter of the model.
use erikslund_solo_pool.Prelude.{Bool, List, Bytes, Option}

-- The typed shape of a request that the parser tries first.
pub record RequestWire (Value : Type 0) : Type 0 where
  pub id : Value
  pub method : Option Bytes
  pub params : Option (List Bytes)

pub record Json (Number : Type 0) : Type 1 where
  pub Value : Type 0
  -- What it can be made of.
  pub null : Value
  pub boolean : Bool → Value
  pub number : Number → Value
  pub string : Bytes → Value
  pub array : List Value → Value
  pub object : List (Bytes × Value) → Value
  -- What it can be read as.
  pub is_null : Value → Bool
  pub as_number : Value → Option Number
  pub as_string : Value → Option Bytes
  pub as_array : Value → Option (List Value)
  pub is_object : Value → Bool
  pub at : Value → Bytes → Option Value
  -- The texts: none is an error of the library.
  pub read_json : Bytes → Option Value
  pub read_request : Bytes → Option (RequestWire Value)
  pub write_json : Value → Option Bytes
  -- `std::from_chars` of a text that it reads to its end.
  pub from_chars : Bytes → Option Number
  -- `value == std::floor(value)`.
  pub is_whole : Number → Bool
