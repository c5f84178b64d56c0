-- ===== src/Bitcoin/Serialize/Height.antt =====
-- bitcoin/serialize.hpp: a height is a minimal script number.
use erikslund_solo_pool.Prelude.{
  ℕ, zero, suc, ◌+◌, ◌*◌, ◌/◌, ◌%◌, ◌^◌, ◌≤◌, ◌<◌, ◌≡◌, refl, ap, ◌∙◌, ◌⊎◌, inl, inr, [], ◌∷◌, ◌++◌,
  Bytes, IsBytes, length, ◌==◌, ok, arith, Bool-cases, length-append, All-append, IsByte,
}
use native.Mathlib.Nat.{pow-suc}
use erikslund_solo_pool.Prelude.Int.{pos}
use erikslund_solo_pool.Bitcoin.Serialize.{magnitude_loop, magnitude, last_byte, serialize_height}

-- The number that bytes stand for, the lowest first.
pub script_number : Bytes → ℕ
script_number [] = 0
script_number (b ∷ bs) = b + 256 * script_number bs

-- The bytes of a number: as many as it needs.
record IsMagnitude (n : ℕ) (bytes : Bytes) : Type 0 where
  number : script_number bytes ≡ n
  are_bytes : IsBytes bytes
  top : (bytes ≡ []) ⊎ (0 < last_byte bytes)

IsMagnitude-cons :
    (n : ℕ) (bytes : Bytes) → IsMagnitude (n / 256) bytes → 0 < n → IsMagnitude n (n % 256 ∷ bytes)
unfolding script_number last_byte
IsMagnitude-cons n [] m h = record {
  number = omega (arith, m.number);
  are_bytes = (omega arith, tt);
  top = inr (omega (arith, m.number));
}
IsMagnitude-cons n (b ∷ bytes) m h = record {
  number = omega (arith, m.number);
  are_bytes = (omega arith, m.are_bytes);
  top = ground (arith, m.top);
}

magnitude_loop-IsMagnitude :
    (fuel n : ℕ)
    → n < 256 ^ fuel
    → IsMagnitude n (magnitude_loop fuel n) × (length (magnitude_loop fuel n) ≤ fuel)
unfolding magnitude_loop
magnitude_loop-IsMagnitude zero n h = (
  record { number = unfold script_number in omega arith; are_bytes = tt; top = inl refl },
  omega arith,
)
magnitude_loop-IsMagnitude (suc fuel) n h = elim (Bool-cases (n == 0)) [
  | inl zero_left ↦ rw zero_left (
    record { number = unfold script_number in ground arith; are_bytes = tt; top = inl refl },
    omega arith,
  )
  | inr more ↦
      let (m, few) =
        magnitude_loop-IsMagnitude fuel (n / 2 ^ 8) (omega (arith, pow-suc 256 fuel)) in
      rw more
        (IsMagnitude-cons n (magnitude_loop fuel (n / 256)) m (ground arith), omega (arith, few))
]

script_number-append_zero :
    (bytes : Bytes) → script_number (bytes ++ (0 ∷ [])) ≡ script_number bytes
unfolding script_number
script_number-append_zero [] = refl
script_number-append_zero (b ∷ bytes) = rw (script_number-append_zero bytes)

last_byte-append : (bytes : Bytes) (b : ℕ) → last_byte (bytes ++ (b ∷ [])) ≡ b
unfolding last_byte
last_byte-append [] b = refl
last_byte-append (a ∷ []) b = refl
last_byte-append (a ∷ (c ∷ bytes)) b = last_byte-append (c ∷ bytes) b

last_byte-IsByte : (bytes : Bytes) → IsBytes bytes → last_byte bytes < 256
unfolding last_byte
last_byte-IsByte [] h = omega arith
last_byte-IsByte (a ∷ []) h = h.0
last_byte-IsByte (a ∷ (c ∷ bytes)) h = last_byte-IsByte (c ∷ bytes) h.1

-- The bytes of a positive script number, with none to spare: the highest has its sign bit clear, and
-- is zero only where the byte below has that bit set.
pub record IsMinimal (n : ℕ) (bytes : Bytes) : Type 0 where
  pub number : script_number bytes ≡ n
  pub are_bytes : IsBytes bytes
  pub sign_clear : last_byte bytes < 0x80
  pub needed :
      (0 < last_byte bytes) ⊎ ((low : Bytes) × (bytes ≡ low ++ (0 ∷ [])) × (0x80 ≤ last_byte low))
  pub short : length bytes ≤ 9

IsMagnitude-top : (n : ℕ) (bytes : Bytes) → IsMagnitude n bytes → 0 < n → 0 < last_byte bytes
unfolding script_number
IsMagnitude-top n bytes m p = elim m.top [
  | inl none ↦ absurd (omega (arith, m.number, ap script_number none))
  | inr top ↦ top
]

magnitude-IsMinimal : (n : ℕ) → 0 < n → n < 2 ^ 63 → IsMinimal n (magnitude n)
unfolding magnitude
magnitude-IsMinimal n p h =
    let (m, few) = magnitude_loop-IsMagnitude 8 n (omega arith) in
    let byte = last_byte-IsByte (magnitude_loop 8 n) m.are_bytes in
    elim (Bool-cases (last_byte (magnitude_loop 8 n) / 2 ^ 7 % 2 == 0)) [
      | inl clear ↦ rw clear (record {
        number = m.number;
        are_bytes = m.are_bytes;
        sign_clear = ground arith;
        needed = inl (IsMagnitude-top n (magnitude_loop 8 n) m p);
        short = omega arith;
      })
      | inr signed ↦ rw signed (record {
        number = script_number-append_zero (magnitude_loop 8 n) ∙ m.number;
        are_bytes = All-append IsByte (magnitude_loop 8 n) (0 ∷ []) m.are_bytes (omega arith, tt);
        sign_clear = rw (last_byte-append (magnitude_loop 8 n) 0) (omega arith);
        needed = inr (magnitude_loop 8 n, refl, ground arith);
        short = omega (arith, length-append (magnitude_loop 8 n) (0 ∷ []));
      })
    ]

-- A height above 16 is encoded as the length and the bytes of a minimal script number.
pub serialize_height-IsMinimal :
    (h : ℕ)
    → 16 < h
    → h < 2 ^ 63
    → (bytes : Bytes) × (serialize_height (pos h) ≡ ok (length bytes ∷ bytes)) × IsMinimal h bytes
unfolding serialize_height
serialize_height-IsMinimal h big small =
    let m = magnitude-IsMinimal h (omega arith) small in
    let size : length (magnitude h) % 256 ≡ length (magnitude h) = omega (arith, m.short) in
    (magnitude h, ground arith, m)
