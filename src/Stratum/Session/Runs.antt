-- ===== src/Stratum/Session/Runs.antt =====
-- What every run of a session keeps.
use erikslund_solo_pool.Prelude.{
  ◌+◌, List, [], ◌∷◌, ◌++◌, Bytes, ◌≡◌, refl, All, All-append, All-middle, arith, ok, throw, ◌∙◌,
  Throws, inl, inr, bind, Option-cases, split, same_bytes, codes,
}
use erikslund_solo_pool.Prelude.Int.{ℤ}
use erikslund_solo_pool.Stratum.Message.Parse.{parse_request}
use erikslund_solo_pool.Stratum.Job.Accept.{IsHash}
use erikslund_solo_pool.Stratum.Session.{
  Platform, PoolContext, Session, Event, Value, Outcome, LogicError, new_session,
}
use erikslund_solo_pool.Stratum.Session.Submit.{
  Snapshot, Begun, replied, to_validate, note_share, settle_share, finish_begun, handle_submit,
  handle_line,
}
use erikslund_solo_pool.Stratum.Session.Invariant.{Promise, IsFaithful, IsSound}
use erikslund_solo_pool.Stratum.Session.Safe.{IsSafe, send_notify-IsSafe}
use erikslund_solo_pool.Stratum.Session.Answers.{dispatch-IsSafe, maybe_retarget-IsSafe}
use erikslund_solo_pool.Stratum.Session.Honest.{
  accepted_count, rejected_count, taken_count, turned_down_count, taken_count_middle,
  turned_down_count_middle, accepted_count-quiet, rejected_count-quiet, IsQuiet-IsHonest,
  accepted_count-append, rejected_count-append, IsHonest, IsStep, IsFair, IsCalm-IsStep,
}
use erikslund_solo_pool.Stratum.Session.Judged.{
  IsBegun, begin_submit-IsBegun, note_share-IsNote, settle_share-IsSettled,
}
use erikslund_solo_pool.Stratum.Session.Steps.{
  World, Step, dispatched, published, retargeted, refused_at_once, submitted, noted, settled, Run,
  here, next, opened,
}

module _ (P : Platform) (promise : Promise P) where
  module _ (extranonce1 : Bytes) where
    -- What holds of a world with all that happened before.
    pub record IsKept (w : World P promise) (events : List (Event P)) : Type 0 where
      pub own : w.session.extranonce1 ≡ extranonce1
      pub sound : IsSound P promise w.session
      pub accepted : w.session.shares_accepted + taken_count P w.settling ≡ accepted_count P events
      pub rejected :
          w.session.shares_rejected + turned_down_count P w.settling ≡ rejected_count P events
      pub honest : All (IsHonest P promise extranonce1) events
      pub fair : All (IsFair P promise extranonce1) w.in_flight

    IsStep-IsKept :
        (w : World P promise) (s : Session P) (in_flight : List (Snapshot P))
        (before events : List (Event P))
        → IsKept w before
        → IsStep P promise extranonce1 w.session s events
        → All (IsFair P promise extranonce1) in_flight
        → IsKept
            (record { session = s; in_flight = in_flight; settling = w.settling })
            (before ++ events)
    IsStep-IsKept w s in_flight before events kept (e, a, r, n, sound, honest) fair = record {
      own = e ∙ kept.own;
      sound = sound;
      accepted = omega (arith, a, kept.accepted, accepted_count-append P before events);
      rejected = omega (arith, r, kept.rejected, rejected_count-append P before events);
      honest = All-append (IsHonest P promise extranonce1) before events kept.honest honest;
      fair = fair;
    }

    IsSafe-IsKept :
        (w : World P promise) (s : Session P) (before events : List (Event P)) (m : Outcome P)
        → IsKept w before
        → m ≡ ok (s, events)
        → IsSafe P promise w.session m
        → IsKept (record w { session = s }) (before ++ events)
    IsSafe-IsKept w s before events m kept e safe =
        let (calm, quiet) : IsSafe P promise w.session (ok (s, events)) = rw e at safe in
        IsStep-IsKept w s w.in_flight before events kept
          (IsCalm-IsStep P promise extranonce1 w.session s events calm quiet) kept.fair

    module _ (hash : IsHash P.sha256d) where
      pub Step-IsKept :
          {w u : World P promise} {events : List (Event P)} (before : List (Event P))
          → Step P promise w u events
          → IsKept w before
          → IsKept u (before ++ events)
      Step-IsKept before (dispatched w pool request now s events faithful e) kept =
          IsSafe-IsKept w s before events _ kept e
            (dispatch-IsSafe P promise pool w.session request now faithful kept.sound)
      Step-IsKept before (published w job clean s events known e) kept =
          IsSafe-IsKept w s before events _ kept e
            (send_notify-IsSafe P promise w.session job clean known kept.sound)
      Step-IsKept before (retargeted w pool now) kept =
          IsSafe-IsKept w _ before _ _ kept refl
            (maybe_retarget-IsSafe P promise pool w.session now kept.sound)
      Step-IsKept before (refused_at_once w pool id params s events faithful e) kept =
          let begun =
            begin_submit-IsBegun P promise extranonce1 pool w.session id params faithful
              kept.sound in
          IsStep-IsKept w s w.in_flight before events kept (rw e at begun) kept.fair
      Step-IsKept before (submitted w pool id params s snap faithful e) kept =
          let begun =
            begin_submit-IsBegun P promise extranonce1 pool w.session id params faithful
              kept.sound in
          let (calm, fair) : IsBegun P promise extranonce1 w.session (ok (to_validate s snap)) =
            rw e at begun in
          IsStep-IsKept w s (snap ∷ w.in_flight) before [] kept
            (IsCalm-IsStep P promise extranonce1 w.session s [] calm tt) (fair, kept.fair)
      Step-IsKept before (noted s first after snap settling now_unix) kept =
          let (fair, rest) = All-middle (IsFair P promise extranonce1) first snap after kept.fair in
          let (a, r, honest) =
            note_share-IsNote P promise extranonce1 hash s snap now_unix kept.own fair in
          let (share, events) = note_share P s snap now_unix in
          record {
            own = kept.own;
            sound = kept.sound;
            accepted = omega (
              arith,
              a,
              kept.accepted,
              accepted_count-append P before events,
              taken_count_middle P [] settling share,
            );
            rejected = omega (
              arith,
              r,
              kept.rejected,
              rejected_count-append P before events,
              turned_down_count_middle P [] settling share,
            );
            honest = All-append (IsHonest P promise extranonce1) before events kept.honest honest;
            fair = rest;
          }
      Step-IsKept before (settled s in_flight first after share now_wall now_steady) kept =
          let (e, a, r, sound, quiet) =
            settle_share-IsSettled P promise extranonce1 s share now_wall now_steady kept.sound in
          let events = (settle_share P s share now_wall now_steady).1 in
          record {
            own = e ∙ kept.own;
            sound = sound;
            accepted = omega (
              arith,
              a,
              kept.accepted,
              accepted_count-append P before events,
              accepted_count-quiet P events quiet,
              taken_count_middle P first after share,
            );
            rejected = omega (
              arith,
              r,
              kept.rejected,
              rejected_count-append P before events,
              rejected_count-quiet P events quiet,
              turned_down_count_middle P first after share,
            );
            honest =
                All-append (IsHonest P promise extranonce1) before events kept.honest
                  (IsQuiet-IsHonest P promise extranonce1 events quiet);
            fair = kept.fair;
          }

      pub Run-IsKept :
          {start w : World P promise} {events : List (Event P)}
          → IsKept start []
          → Run P promise start w events
          → IsKept w events
      Run-IsKept kept here = kept
      Run-IsKept kept (next run step) = Step-IsKept _ step (Run-IsKept kept run)

      pub opened-IsKept :
          (pool : PoolContext P) (now_wall : ℤ) (now_steady : Value P)
          → IsKept (opened P promise pool extranonce1 now_wall now_steady) []
      unfolding new_session accepted_count rejected_count taken_count turned_down_count
      opened-IsKept pool now_wall now_steady = record {
        own = refl;
        sound = (refl, refl);
        accepted = refl;
        rejected = refl;
        honest = tt;
        fair = tt;
      }

      -- When the hash gives 32 bytes, the pool hands out only published jobs, of which no two have one
      -- name, and validates addresses by one table: whatever operations run on a new session, in
      -- whatever order and with whatever submissions under way, every share that it notes to the pool,
      -- accepted or rejected, is noted for an address that the pool has a script for; and every block
      -- that it reports is of a published job, hashes to at most the job's network target, and has a
      -- coinbase made of the job's first part, this session's extranonce, one more extranonce of the
      -- pool's size, and the job's second part for the script of the address that the block is
      -- reported for.
      pub Run-IsHonest :
          (pool : PoolContext P) (now_wall : ℤ) (now_steady : Value P) (w : World P promise)
          (events : List (Event P))
          → Run P promise (opened P promise pool extranonce1 now_wall now_steady) w events
          → All (IsHonest P promise extranonce1) events
      Run-IsHonest pool now_wall now_steady w events run =
          (Run-IsKept (opened-IsKept pool now_wall now_steady) run).honest

      -- Under the same conditions: after every step, the two counters of the session, each with the
      -- shares of its kind that wait to be counted, are the numbers of accepted and of rejected shares
      -- that the pool was told of.
      pub Run-accepted_count :
          (pool : PoolContext P) (now_wall : ℤ) (now_steady : Value P) (w : World P promise)
          (events : List (Event P))
          → Run P promise (opened P promise pool extranonce1 now_wall now_steady) w events
          → (w.session.shares_accepted + taken_count P w.settling ≡ accepted_count P events)
            × (w.session.shares_rejected + turned_down_count P w.settling ≡ rejected_count P events)
      Run-accepted_count pool now_wall now_steady w events run =
          let kept = Run-IsKept (opened-IsKept pool now_wall now_steady) run in
          (kept.accepted, kept.rejected)

      submit_returns :
          (s : Session P) (m : Throws LogicError (Begun P)) (now_unix now_wall : ℤ)
          (now_steady : Value P)
          → IsBegun P promise extranonce1 s m
          → (after : Session P × List (Event P)) × ((bind m
                λ begun. finish_begun P begun now_unix now_wall now_steady)
              ≡ ok after)
      unfolding finish_begun
      submit_returns s (throw e) now_unix now_wall now_steady begun = absurd begun
      submit_returns s (ok (replied s' events)) now_unix now_wall now_steady begun = (_, refl)
      submit_returns s (ok (to_validate s' snap)) now_unix now_wall now_steady begun = (_, refl)

      safe_returns :
          (s : Session P) (m : Outcome P)
          → IsSafe P promise s m
          → (after : Session P × List (Event P)) × (m ≡ ok after)
      safe_returns s (ok after) safe = (after, refl)
      safe_returns s (throw e) safe = absurd safe

      -- Under the same conditions: after any run of a new session, `handle_line` throws nothing,
      -- whatever the line; a job is never to be built before the session has a payout script.
      pub handle_line-ok :
          (pool : PoolContext P) (now_wall : ℤ) (now_steady : Value P) (w : World P promise)
          (events : List (Event P)) (pool_now : PoolContext P) (line : Bytes) (unix wall : ℤ)
          (steady : Value P)
          → Run P promise (opened P promise pool extranonce1 now_wall now_steady) w events
          → IsFaithful P promise pool_now
          → (after : Session P × List (Event P)) × (handle_line P pool_now w.session line unix wall
                steady
              ≡ ok after)
      unfolding handle_line handle_submit
      handle_line-ok pool now_wall now_steady w events pool_now line unix wall steady run faithful =
          let sound = (Run-IsKept (opened-IsKept pool now_wall now_steady) run).sound in
          elim (Option-cases (parse_request P.double P.json line)) [
            | inl e ↦ rw (handle_line, e) (_, refl)
            | inr (request, e) ↦
                rw (handle_line, e)
                  (split (λ (m : Outcome P). (after : Session P × List (Event P)) × (m ≡ ok after))
                    (same_bytes request.method (codes "mining.submit"))
                    (λ _. submit_returns w.session _ unix wall steady (
                      begin_submit-IsBegun P promise extranonce1 pool_now w.session request.id
                        request.params faithful sound))
                    (λ _.
                      safe_returns w.session _ (
                        dispatch-IsSafe P promise pool_now w.session request steady faithful
                          sound)))
          ]
