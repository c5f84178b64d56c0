-- ===== src/Stratum/Vardiff/Range.antt =====
-- stratum/session.cpp: a difficulty stays in its range.
use erikslund_solo_pool.Prelude.{
  ◌≡◌, refl, sym, none, some, some_inj, true, false, not, ◌&&◌, ◌||◌, Bool-cases, ◌⊎◌, inl, inr,
  arith,
}
use erikslund_solo_pool.Prelude.Double.{Double, max_of, min_of}
use erikslund_solo_pool.Stratum.Vardiff.{
  clamp, difficulty_cap, vardiff_next, clamp_suggested_difficulty,
}

-- What doubles satisfy, NaN and the infinities included.
pub record IsDouble (F : Double) : Type 0 where
  pub irreflexive : (a : F.Value) → F.less a a ≡ false
  pub asymmetric : (a b : F.Value) → F.less a b ≡ true → F.less b a ≡ false
  pub doubled :
      (a b : F.Value)
      → F.less F.zero_value a ≡ true
      → F.less a b ≡ false
      → F.less (F.mul a F.two) b ≡ false
  pub halved :
      (a b : F.Value)
      → F.less F.zero_value a ≡ true
      → F.less b a ≡ false
      → F.less b (F.div a F.two) ≡ false

none-some {ℓ} : {A : Type ℓ} {a : A} → none ≡ some a → ⊥
none-some h = cc

module _ (F : Double) (laws : IsDouble F) where
  -- Not below the one, not above the other, and positive.
  IsInside : F.Value → F.Value → F.Value → Type 0
  IsInside low high value =
      (F.less value low ≡ false) × (F.less high value ≡ false) × (F.less F.zero_value value ≡ true)

  clamp-IsInside :
      (value low high : F.Value)
      → F.less F.zero_value value ≡ true
      → F.less F.zero_value low ≡ true
      → F.less F.zero_value high ≡ true
      → F.less high low ≡ false
      → IsInside low high (clamp F value low high)
  unfolding clamp IsInside
  clamp-IsInside value low high v l h order =
      ground (arith, laws.irreflexive low, laws.irreflexive high)

  min_of-range :
      (low high value : F.Value)
      → F.less value low ≡ false
      → F.less high low ≡ false
      → (F.less (min_of F high value) low ≡ false) × (F.less high (min_of F high value) ≡ false)
  min_of-range low high value above order = elim (Bool-cases (F.less value high)) [
    | inl less ↦ rw less (above, laws.asymmetric value high less)
    | inr more ↦ rw more (order, laws.irreflexive high)
  ]

  max_of-range :
      (low high value : F.Value)
      → F.less high value ≡ false
      → F.less high low ≡ false
      → (F.less (max_of F low value) low ≡ false) × (F.less high (max_of F low value) ≡ false)
  max_of-range low high value under order = elim (Bool-cases (F.less low value)) [
    | inl more ↦ rw more (laws.asymmetric low value more, under)
    | inr less ↦ rw less (laws.irreflexive low, order)
  ]

  -- From a positive difficulty, with a positive minimum that is not above a positive cap, the next
  -- difficulty is neither below the minimum nor above the cap, whatever the rate of shares.
  pub vardiff_next_range :
      (current shares_per_minute target min_difficulty max_difficulty : F.Value)
      → F.less F.zero_value current ≡ true
      → F.less F.zero_value min_difficulty ≡ true
      → F.less F.zero_value (difficulty_cap F max_difficulty) ≡ true
      → F.less (difficulty_cap F max_difficulty) min_difficulty ≡ false
      → (F.less
            (vardiff_next F current shares_per_minute target min_difficulty max_difficulty)
            min_difficulty
          ≡ false)
        × (F.less
              (difficulty_cap F max_difficulty)
              (vardiff_next F current shares_per_minute target min_difficulty max_difficulty)
            ≡ false)
  unfolding vardiff_next IsInside
  vardiff_next_range current rate target low max_difficulty c l h order =
      let cap = difficulty_cap F max_difficulty in
      let now = clamp F current low cap in
      let (above, under, positive) = clamp-IsInside current low cap c l h order in
      elim (Bool-cases (F.less (F.mul target F.two) rate && F.less now cap)) [
        | inl faster ↦
            rw faster
              (min_of-range low cap (F.mul now F.two) (laws.doubled now low positive above) order)
        | inr steady ↦ elim (Bool-cases (F.less rate (F.div target F.two))) [
          | inl slower ↦
              rw (steady, slower)
                (max_of-range low cap (F.div now F.two) (laws.halved now cap positive under) order)
          | inr kept ↦ rw (steady, kept) (above, under)
        ]
      ]

  max_of-least : (a low : F.Value) → F.less (max_of F a low) low ≡ false
  max_of-least a low = elim (Bool-cases (F.less a low)) [
    | inl less ↦ rw less (laws.irreflexive low)
    | inr more ↦ rw more more
  ]

  within {ℓ ℓ' ℓ''} : {A : Type ℓ} {B : Type ℓ'} {C : Type ℓ''} → A ⊎ B → A ⊎ B ⊎ C
  within (inl a) = inl a
  within (inr b) = inr (inl b)

  over_high :
      (suggested low high : F.Value)
      → F.less high (max_of F suggested low) ≡ true
      → F.less high low ≡ false
      → F.less high suggested ≡ true
  over_high suggested low high over order = ground arith

  -- The larger, and which of the two it is.
  max_of_cases :
      (a low : F.Value) → (max_of F a low ≡ a) ⊎ ((max_of F a low ≡ low) × (F.less a low ≡ true))
  max_of_cases a low = elim (Bool-cases (F.less a low)) [
    | inl less ↦ rw less (inr (refl, refl))
    | inr more ↦ rw more (inl refl)
  ]

  -- For doubles, with a maximum, when there is one, that is not below the minimum: a suggested
  -- difficulty that is taken becomes what it is, or the minimum when it is below that, or the maximum
  -- when there is one and it is above that; what it becomes is not below the minimum, nor above the
  -- maximum if there is one.
  pub clamp_suggested_difficulty_range :
      (suggested low high value : F.Value)
      → (F.less F.zero_value high && F.less high low) ≡ false
      → clamp_suggested_difficulty F suggested low high ≡ some value
      → (F.less value low ≡ false)
        × ((F.less F.zero_value high && F.less high value) ≡ false)
        × ((value ≡ suggested)
            ⊎ ((value ≡ low) × (F.less suggested low ≡ true))
            ⊎ ((value ≡ high) × ((F.less F.zero_value high && F.less high suggested) ≡ true)))
  unfolding clamp_suggested_difficulty
  clamp_suggested_difficulty_range suggested low high value order taken =
      elim (Bool-cases (not (F.is_finite suggested) || not (F.less F.zero_value suggested))) [
        | inl refused ↦ absurd (none-some (rw refused at taken))
        | inr allowed ↦ elim (Bool-cases (F.less F.zero_value high)) [
          | inr unlimited ↦
              rw (sym (some_inj (rw (allowed, unlimited) at taken)), unlimited)
                (max_of-least suggested low, refl, within (max_of_cases suggested low))
          | inl limited ↦ elim (Bool-cases (F.less high (max_of F suggested low))) [
            | inl over ↦
                rw (sym (some_inj (rw (allowed, limited, over) at taken)), limited)
                  (
                    rw limited at order,
                    laws.irreflexive high,
                    inr (inr (refl, over_high suggested low high over (rw limited at order))),
                  )
            | inr inside ↦
                rw (sym (some_inj (rw (allowed, limited, inside) at taken)), limited)
                  (max_of-least suggested low, inside, within (max_of_cases suggested low))
          ]
        ]
      ]
