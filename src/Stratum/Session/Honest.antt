-- ===== src/Stratum/Session/Honest.antt =====
-- What the calls of the pool mean: whom a share is noted for, whom a block pays, and how many notes of
-- each kind there are.
use erikslund_solo_pool.Prelude.{
  ℕ, suc, ◌+◌, List, [], ◌∷◌, ◌++◌, ◌≤◌, Bytes, some, ◌≡◌, refl, All, length, arith,
}
use erikslund_solo_pool.Util.Uint256.Order.{uint256_value}
use erikslund_solo_pool.Stratum.Job.{Job}
use erikslund_solo_pool.Stratum.Job.Work.{build_coinbase2}
use erikslund_solo_pool.Stratum.Job.Share.{ShareResult}
use erikslund_solo_pool.Stratum.Session.{
  Platform, Session, Event, line_sent, worker_attached, share_rejected, share_accepted, block_found,
  Value,
}
use erikslund_solo_pool.Stratum.Session.Submit.{Snapshot, Noted, share_taken, turned_down}
use erikslund_solo_pool.Stratum.Session.Invariant.{Promise, IsSound}
use erikslund_solo_pool.Stratum.Session.Safe.{IsQuiet, IsCalm}

module _ (P : Platform) where
  unfoldable pub accepted_count : List (Event P) → ℕ
  accepted_count [] = 0
  accepted_count (share_accepted accounting address worker credit difficulty ∷ events) =
      suc (accepted_count events)
  accepted_count (_ ∷ events) = accepted_count events

  unfoldable pub rejected_count : List (Event P) → ℕ
  rejected_count [] = 0
  rejected_count (share_rejected accounting address worker class ∷ events) =
      suc (rejected_count events)
  rejected_count (_ ∷ events) = rejected_count events

  unfoldable pub line_count : List (Event P) → ℕ
  line_count [] = 0
  line_count (line_sent line ∷ events) = suc (line_count events)
  line_count (_ ∷ events) = line_count events

  pub accepted_count-append :
      (xs ys : List (Event P)) → accepted_count (xs ++ ys) ≡ accepted_count xs + accepted_count ys
  unfolding accepted_count
  accepted_count-append [] ys = omega arith
  accepted_count-append (line_sent l ∷ xs) ys = accepted_count-append xs ys
  accepted_count-append (worker_attached a w ∷ xs) ys = accepted_count-append xs ys
  accepted_count-append (share_rejected h a w c ∷ xs) ys = accepted_count-append xs ys
  accepted_count-append (share_accepted h a w c d ∷ xs) ys =
      omega (arith, accepted_count-append xs ys)
  accepted_count-append (block_found a w j r ∷ xs) ys = accepted_count-append xs ys

  pub rejected_count-append :
      (xs ys : List (Event P)) → rejected_count (xs ++ ys) ≡ rejected_count xs + rejected_count ys
  unfolding rejected_count
  rejected_count-append [] ys = omega arith
  rejected_count-append (line_sent l ∷ xs) ys = rejected_count-append xs ys
  rejected_count-append (worker_attached a w ∷ xs) ys = rejected_count-append xs ys
  rejected_count-append (share_rejected h a w c ∷ xs) ys =
      omega (arith, rejected_count-append xs ys)
  rejected_count-append (share_accepted h a w c d ∷ xs) ys = rejected_count-append xs ys
  rejected_count-append (block_found a w j r ∷ xs) ys = rejected_count-append xs ys

  pub accepted_count-quiet :
      (events : List (Event P)) → All (IsQuiet P) events → accepted_count events ≡ 0
  unfolding accepted_count
  accepted_count-quiet [] quiet = refl
  accepted_count-quiet (line_sent l ∷ xs) quiet = accepted_count-quiet xs quiet.1
  accepted_count-quiet (worker_attached a w ∷ xs) quiet = accepted_count-quiet xs quiet.1
  accepted_count-quiet (share_rejected h a w c ∷ xs) quiet = absurd quiet.0
  accepted_count-quiet (share_accepted h a w c d ∷ xs) quiet = absurd quiet.0
  accepted_count-quiet (block_found a w j r ∷ xs) quiet = absurd quiet.0

  pub rejected_count-quiet :
      (events : List (Event P)) → All (IsQuiet P) events → rejected_count events ≡ 0
  unfolding rejected_count
  rejected_count-quiet [] quiet = refl
  rejected_count-quiet (line_sent l ∷ xs) quiet = rejected_count-quiet xs quiet.1
  rejected_count-quiet (worker_attached a w ∷ xs) quiet = rejected_count-quiet xs quiet.1
  rejected_count-quiet (share_rejected h a w c ∷ xs) quiet = absurd quiet.0
  rejected_count-quiet (share_accepted h a w c d ∷ xs) quiet = absurd quiet.0
  rejected_count-quiet (block_found a w j r ∷ xs) quiet = absurd quiet.0

  -- Of the shares that the pool was told of and that are still to be counted, those of each kind.
  unfoldable pub taken_count : List (Noted P) → ℕ
  taken_count [] = 0
  taken_count (share_taken id credit difficulty ∷ settling) = suc (taken_count settling)
  taken_count (turned_down id reason ∷ settling) = taken_count settling

  unfoldable pub turned_down_count : List (Noted P) → ℕ
  turned_down_count [] = 0
  turned_down_count (share_taken id credit difficulty ∷ settling) = turned_down_count settling
  turned_down_count (turned_down id reason ∷ settling) = suc (turned_down_count settling)

  pub taken_count_middle :
      (before after : List (Noted P)) (noted : Noted P)
      → taken_count (before ++ (noted ∷ after))
        ≡ taken_count (noted ∷ []) + taken_count (before ++ after)
  unfolding taken_count
  taken_count_middle [] after (share_taken id c d) = omega arith
  taken_count_middle [] after (turned_down id r) = omega arith
  taken_count_middle (share_taken id c d ∷ before) after noted =
      omega (arith, taken_count_middle before after noted)
  taken_count_middle (turned_down id r ∷ before) after noted = taken_count_middle before after noted

  pub turned_down_count_middle :
      (before after : List (Noted P)) (noted : Noted P)
      → turned_down_count (before ++ (noted ∷ after))
        ≡ turned_down_count (noted ∷ []) + turned_down_count (before ++ after)
  unfolding turned_down_count
  turned_down_count_middle [] after (share_taken id c d) = omega arith
  turned_down_count_middle [] after (turned_down id r) = omega arith
  turned_down_count_middle (share_taken id c d ∷ before) after noted =
      turned_down_count_middle before after noted
  turned_down_count_middle (turned_down id r ∷ before) after noted =
      omega (arith, turned_down_count_middle before after noted)

  module _ (promise : Promise P) (extranonce1 : Bytes) where
    -- The pool has a script for the address.
    abbrev pub IsPayee : Bytes → Type 0
    IsPayee address = (script : Bytes) × (promise.validate address ≡ some script)

    -- A solved block of a published job, whose coinbase is the job's around this connection's
    -- extranonce and ends in the outputs to the script of the address.
    pub record IsPaid (address : Bytes) (job : Job (Value P)) (result : ShareResult (Value P))
        : Type 0 where
      pub script : Bytes
      pub extranonce2 : Bytes
      pub is_script : promise.validate address ≡ some script
      pub is_published : promise.IsPublished job
      pub fills : length extranonce2 ≡ job.extranonce2_size
      pub pays :
          result.legacy_coinbase
          ≡ ((job.coinbase1 ++ extranonce1) ++ extranonce2) ++ build_coinbase2 P.double job script
      pub solves : uint256_value (P.sha256d result.header) ≤ uint256_value job.network_target

    abbrev pub IsHonest : Event P → Type 0
    IsHonest (line_sent line) = Unit
    IsHonest (worker_attached address worker) = Unit
    IsHonest (share_rejected accounting address worker class) = IsPayee address
    IsHonest (share_accepted accounting address worker credit difficulty) = IsPayee address
    IsHonest (block_found address worker job result) = IsPaid address job result

    -- What every step does, from a session to the next with these events.
    abbrev pub IsStep : Session P → Session P → List (Event P) → Type 0
    IsStep s s' events =
        (s'.extranonce1 ≡ s.extranonce1)
        × (s'.shares_accepted ≡ s.shares_accepted + accepted_count events)
        × (s'.shares_rejected ≡ s.shares_rejected + rejected_count events)
        × (s.last_notified_publication_sequence ≤ s'.last_notified_publication_sequence)
        × IsSound P promise s'
        × All IsHonest events

    -- What a submission takes with it.
    pub record IsFair (snap : Snapshot P) : Type 0 where
      pub script : Bytes
      pub is_script : promise.validate snap.address ≡ some script
      pub is_published : promise.IsPublished snap.job
      pub has_coinbase2 : snap.coinbase2.coinbase2 ≡ build_coinbase2 P.double snap.job script

    pub IsQuiet-IsHonest : (events : List (Event P)) → All (IsQuiet P) events → All IsHonest events
    IsQuiet-IsHonest [] quiet = tt
    IsQuiet-IsHonest (line_sent l ∷ xs) quiet = (tt, IsQuiet-IsHonest xs quiet.1)
    IsQuiet-IsHonest (worker_attached a w ∷ xs) quiet = (tt, IsQuiet-IsHonest xs quiet.1)
    IsQuiet-IsHonest (share_rejected h a w c ∷ xs) quiet = absurd quiet.0
    IsQuiet-IsHonest (share_accepted h a w c d ∷ xs) quiet = absurd quiet.0
    IsQuiet-IsHonest (block_found a w j r ∷ xs) quiet = absurd quiet.0

    -- A calm operation is a step.
    pub IsCalm-IsStep :
        (s s' : Session P) (events : List (Event P))
        → IsCalm P promise s s'
        → All (IsQuiet P) events
        → IsStep s s' events
    IsCalm-IsStep s s' events (e, a, r, n, sound) quiet = (
      e,
      omega (arith, a, accepted_count-quiet events quiet),
      omega (arith, r, rejected_count-quiet events quiet),
      n,
      sound,
      IsQuiet-IsHonest events quiet,
    )
