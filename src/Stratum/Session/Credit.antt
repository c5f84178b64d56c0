-- ===== src/Stratum/Session/Credit.antt =====
-- What a share is credited with.
use erikslund_solo_pool.Prelude.{
  ◌≡◌, false, not, ◌&&◌, refl, Bool-cases, inl, inr, arith, if◌then◌else◌,
}
use erikslund_solo_pool.Prelude.Double.{Double, max_of, min_of}
use erikslund_solo_pool.Stratum.Vardiff.Range.{IsDouble}
use erikslund_solo_pool.Stratum.Session.{Platform, Value}
use erikslund_solo_pool.Stratum.Session.Submit.{Snapshot, accept_difficulty, credited}

module _ (F : Double) (laws : IsDouble F) where
  -- The larger of two when the share reaches it, and the smaller else.
  tier_lem :
      (a b share : F.Value)
      → F.less share (min_of F a b) ≡ false
      → let tier = if not (F.less share (max_of F a b)) then max_of F a b else min_of F a b in
        (F.less tier (min_of F a b) ≡ false)
        × (F.less share tier ≡ false)
        × ((not (F.less share a) && F.less tier a) ≡ false)
        × ((not (F.less share b) && F.less tier b) ≡ false)
  tier_lem a b share reached = elim (Bool-cases (F.less a b)) [
    | inl up ↦ ground (arith, laws.asymmetric a b, laws.irreflexive a, laws.irreflexive b)
    | inr down ↦ ground (arith, laws.asymmetric b a, laws.irreflexive a, laws.irreflexive b)
  ]

module _ (P : Platform) (laws : IsDouble P.double) where
  -- For doubles: a share whose difficulty is not below the one required of it is credited with no less
  -- than that, with no more than its own, with no less than the session's difficulty if it reaches that,
  -- and, while a change of the difficulty is pending, with no less than the previous one if it reaches
  -- that.
  pub credited-accept_difficulty :
      (snap : Snapshot P) (difficulty : Value P)
      → P.double.less difficulty (accept_difficulty P snap) ≡ false
      → (P.double.less (credited P snap difficulty) (accept_difficulty P snap) ≡ false)
        × (P.double.less difficulty (credited P snap difficulty) ≡ false)
        × ((not (P.double.less difficulty snap.snap_difficulty)
              && P.double.less (credited P snap difficulty) snap.snap_difficulty)
            ≡ false)
        × ((snap.snap_pending
              && not (P.double.less difficulty snap.snap_previous)
              && P.double.less (credited P snap difficulty) snap.snap_previous)
            ≡ false)
  unfolding credited accept_difficulty
  credited-accept_difficulty snap difficulty reached = elim (Bool-cases snap.snap_pending) [
    | inl on ↦ rw on (
        tier_lem P.double laws snap.snap_difficulty snap.snap_previous difficulty
          (rw (accept_difficulty, on) at reached))
    | inr off ↦ rw off (
      laws.irreflexive snap.snap_difficulty,
      rw (accept_difficulty, off) at reached,
      ground (arith, laws.irreflexive snap.snap_difficulty),
      refl,
    )
  ]
