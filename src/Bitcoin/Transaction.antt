-- ===== src/Bitcoin/Transaction.antt =====
-- The wire format of a Bitcoin transaction with one input, read back by a parser of its own.
pub mod Reads
use erikslund_solo_pool.Prelude.{
  ℕ, zero, suc, ◌+◌, List, [], ◌∷◌, ◌++◌, Bytes, Option, none, some, length, take, drop, get_or,
  ◌&&◌, ltb, ◌==◌, if◌then◌else◌, Throws, ok, throw,
}
use erikslund_solo_pool.Util.Endian.{read_le32, read_le64}
use erikslund_solo_pool.Util.Varint.{Varint, VarintError, decode_varint}
use erikslund_solo_pool.Bitcoin.Coinbase.{CoinbaseOutput}

pub record Transaction : Type 0 where
  pub version : ℕ
  pub prevout : Bytes
  pub script_sig : Bytes
  pub sequence : ℕ
  pub outputs : List CoinbaseOutput
  pub lock_time : ℕ

-- A value, and the bytes behind it.
abbrev pub Parser : Type 0 → Type 0
Parser A = Bytes → Option (A × Bytes)

infixl 5 ◌>>=◌
unfoldable pub ◌>>=◌ : {A B : Type 0} → Parser A → (A → Parser B) → Parser B
◌>>=◌ p f bytes = elim (p bytes) [ none ↦ none | some (a, rest) ↦ f a rest ]

unfoldable pub pure : {A : Type 0} → A → Parser A
pure a rest = some (a, rest)

unfoldable pub bytes_of : ℕ → Parser Bytes
bytes_of n bytes = if ltb (length bytes) n then none else some (take n bytes, drop n bytes)

unfoldable pub le32 : Parser ℕ
le32 bytes = if ltb (length bytes) 4 then none else some (read_le32 bytes, drop 4 bytes)

unfoldable pub le64 : Parser ℕ
le64 bytes = if ltb (length bytes) 8 then none else some (read_le64 bytes, drop 8 bytes)

varint_result : Bytes → Throws VarintError Varint → Option (ℕ × Bytes)
varint_result bytes (ok v) = some (v.value, drop v.consumed bytes)
varint_result bytes (throw e) = none

unfoldable pub varint : Parser ℕ
unfolding varint_result
varint bytes = varint_result bytes (decode_varint bytes)

unfoldable pub output : Parser CoinbaseOutput
unfolding ◌>>=◌ pure
output = do
  value ← le64
  size ← varint
  script ← bytes_of size
  pure (record { value = value; script = script })

unfoldable pub outputs_of : ℕ → Parser (List CoinbaseOutput)
unfolding ◌>>=◌ pure
outputs_of zero = pure []
outputs_of (suc n) = do first ← output; others ← outputs_of n; pure (first ∷ others)

-- The number of inputs, which must be one, and all behind it up to the lock time.
unfoldable pub body : Parser (Bytes × Bytes × ℕ × List CoinbaseOutput)
unfolding ◌>>=◌ pure
body = do
  inputs ← varint
  prevout ← if inputs == 1 then bytes_of 36 else (λ _. none)
  size ← varint
  script_sig ← bytes_of size
  sequence ← le32
  count ← varint
  outputs ← outputs_of count
  pure (prevout, script_sig, sequence, outputs)

unfoldable pub transaction : Parser Transaction
unfolding ◌>>=◌ pure
transaction = do
  version ← le32
  parts ← body
  lock_time ← le32
  pure (record {
    version = version;
    prevout = parts.0;
    script_sig = parts.1;
    sequence = parts.2;
    outputs = parts.3;
    lock_time = lock_time;
  })

-- Marker 0, flag 1, and the witness of the input: one item.
unfoldable pub witness_transaction : Parser (Transaction × Bytes)
unfolding ◌>>=◌ pure
witness_transaction = do
  version ← le32
  marker ← bytes_of 2
  parts ← if get_or marker 0 1 == 0 && get_or marker 1 0 == 1 then body else (λ _. none)
  items ← varint
  size ← varint
  item ← if items == 1 then bytes_of size else (λ _. none)
  lock_time ← le32
  pure (
    record {
      version = version;
      prevout = parts.0;
      script_sig = parts.1;
      sequence = parts.2;
      outputs = parts.3;
      lock_time = lock_time;
    },
    item,
  )
