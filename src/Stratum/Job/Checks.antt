-- ===== src/Stratum/Job/Checks.antt =====
-- stratum/job.cpp: the checks of a share one by one, and which branch gave a result.
use erikslund_solo_pool.Prelude.{
  ℕ, suc, ◌+◌, ◌*◌, ◌≤◌, ◌≡◌, ◌⊎◌, refl, ap, Bool, true, false, not, ◌&&◌, [], ◌∷◌, map, append-nil,
  Bytes, some, length, if◌then◌else◌, Throws, ok, throw, ok_inj, inl, inr, arith,
}
use erikslund_solo_pool.Prelude.Int.{ℤ, pos, negsuc, pos_part, neg_part}
use erikslund_solo_pool.Util.Hex.{try_from_hex, try_parse_hex_u32}
use erikslund_solo_pool.Util.Hex.Laws.{to_hex-try_from_hex, length-to_hex, to_lower}
use erikslund_solo_pool.Util.Uint256.{from_le_bytes}
use erikslund_solo_pool.Util.Merkle.{Hash256}
use erikslund_solo_pool.Stratum.Job.{Job}
use erikslund_solo_pool.Stratum.Job.Share.{ShareInput, decoded, ntime_outside, hash_value}

pub hash_value-id : (hash : Hash256) → length hash ≡ 32 → hash_value hash ≡ hash
unfolding hash_value from_le_bytes
hash_value-id hash h = rw (hash_value, from_le_bytes, h) (append-nil hash)

pub not_outside :
    {Value : Type 0} (job : Job Value) (ntime : ℕ) (now_unix : ℤ)
    → ntime_outside job ntime now_unix ≡ false
    → (job.curtime ≤ ntime) × (ntime + neg_part now_unix ≤ pos_part now_unix + 7080)
unfolding ntime_outside
not_outside job ntime (pos now) h = ground arith
not_outside job ntime (negsuc now) h = ground arith

pub inside :
    {Value : Type 0} (job : Job Value) (ntime : ℕ) (now_unix : ℤ)
    → job.curtime ≤ ntime
    → ntime + neg_part now_unix ≤ pos_part now_unix + 7080
    → ntime_outside job ntime now_unix ≡ false
unfolding ntime_outside
inside job ntime (pos now) h k = ground arith
inside job ntime (negsuc now) h k = ground arith

-- The three fields, each read on its own.
pub decoded-some :
    (input : ShareInput) (extranonce2 : Bytes) (ntime nonce : ℕ)
    → decoded input ≡ some (extranonce2, ntime, nonce)
    → (try_from_hex input.extranonce2_hex ≡ some extranonce2)
      × (try_parse_hex_u32 input.ntime_hex ≡ some ntime)
      × (try_parse_hex_u32 input.nonce_hex ≡ some nonce)
unfolding decoded
decoded-some input extranonce2 ntime nonce h = ground arith

pub throw-ok {ℓ} :
    {E : Type 0} {A : Type ℓ} {a : A} {e : E} → ◌≡◌ {A = Throws E A} (throw e) (ok a) → ⊥
throw-ok h = cc

pub length-map : (f : ℕ → ℕ) (xs : Bytes) → length (map f xs) ≡ length xs
length-map f [] = refl
length-map f (x ∷ xs) = ap (λ (n : ℕ). suc n) (length-map f xs)

-- A text is twice as long as the bytes that it spells.
pub length_text :
    (text bytes : Bytes) → try_from_hex text ≡ some bytes → length text ≡ length bytes * 2
length_text text bytes h =
    let (_, same) = to_hex-try_from_hex text bytes h in
    omega
      (arith, length-to_hex bytes, length-map to_lower text, ap (λ (bs : Bytes). length bs) same)

pub some-decoded :
    (input : ShareInput) (extranonce2 : Bytes) (ntime nonce : ℕ)
    → try_from_hex input.extranonce2_hex ≡ some extranonce2
    → try_parse_hex_u32 input.ntime_hex ≡ some ntime
    → try_parse_hex_u32 input.nonce_hex ≡ some nonce
    → decoded input ≡ some (extranonce2, ntime, nonce)
unfolding decoded
some-decoded input extranonce2 ntime nonce a b c = rw (decoded, a, b, c) refl

-- Which branch gave the result.
pub network_or_share {ℓ} :
    {E : Type 0} {A : Type ℓ} (e : E) (a : A) {result : A} (b c : Bool)
    → ◌≡◌ {A = Throws E A} (if not b && not c then throw e else ok a) (ok result)
    → ((b ≡ true) ⊎ (c ≡ true)) × (a ≡ result)
network_or_share e a true c h = (inl refl, ok_inj h)
network_or_share e a false true h = (inr refl, ok_inj h)
network_or_share e a false false h = cc

pub takes {ℓ} :
    {E : Type 0} {A : Type ℓ} (e : E) (a : A) (b c : Bool)
    → (b ≡ true) ⊎ (c ≡ true)
    → ◌≡◌ {A = Throws E A} (if not b && not c then throw e else ok a) (ok a)
takes e a true c h = refl
takes e a false true h = refl
takes e a false false h = absurd (ground arith)
