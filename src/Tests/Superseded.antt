-- ===== src/Tests/Superseded.antt =====
-- stratum/: a session that is sent a job, and then one of an earlier publication.
use erikslund_solo_pool.Prelude.{
  ℕ, Bool, true, false, List, [], ◌∷◌, ◌≡◌, ◌≢◌, refl, sym, ◌∙◌, some, ok, throw, arith, codes,
  some_inj, same_bytes,
}
use erikslund_solo_pool.Core.Logging.{sanitize}
use erikslund_solo_pool.Prelude.Int.{pos}
use erikslund_solo_pool.Stratum.Job.{Job}
use erikslund_solo_pool.Stratum.Session.{PoolContext, Session, Event, Outcome, new_session}
use erikslund_solo_pool.Stratum.Session.Handlers.{
  dispatch, handle_subscribe, handle_authorize, first_param, before_dot, authorize,
}
use erikslund_solo_pool.Stratum.Session.Notify.{
  send_notify, maybe_retarget, send_difficulty_then_work, coinbase2_for, is_superseded,
  build_notify_line, is_ready,
}
use erikslund_solo_pool.Stratum.Session.Invariant.{Promise, IsFaithful}
use erikslund_solo_pool.Stratum.Session.Steps.{
  World, dispatched, retargeted, Run, here, next, opened,
}
use erikslund_solo_pool.Stratum.Session.Superseded.{Run-is_superseded}
use erikslund_solo_pool.Tests.Stratum.{first_byte-IsHash, zeros-IsBytes, job}
use erikslund_solo_pool.Tests.Session.{
  platform, script_for, pool, fresh, request, after, returns, after_ok,
}

abbrev third : Job ℕ
third = record job { publication_sequence = 3 }

-- A promise that knows of this job only.
abbrev third_promise : Promise platform
third_promise = record {
  validate = script_for;
  IsPublished = λ published. published ≡ third;
  same_id = λ published other e e' same. e ∙ sym e';
  target-IsBytes = λ published e. rw e (zeros-IsBytes 32);
}

abbrev third_pool : PoolContext platform
third_pool = record pool { recent_job = λ job_id. some third }

third_pool-IsFaithful : IsFaithful platform third_promise third_pool
third_pool-IsFaithful = record {
  validates = λ address. refl;
  current = λ published e. cc;
  recent = λ job_id published e. some_inj (sym e);
}

authorizing : Outcome platform
authorizing =
    dispatch platform third_pool fresh (request (codes "mining.authorize") (codes "a.w" ∷ [])) 100

subscribing : Outcome platform
unfolding authorizing
subscribing =
    dispatch platform third_pool (after authorizing).0
      (request (codes "mining.subscribe") (codes "m" ∷ [])) 100

authorizing-returns : returns authorizing ≡ true
unfolding authorizing dispatch same_bytes handle_authorize first_param before_dot sanitize
    send_difficulty_then_work
authorizing-returns = refl

subscribing-returns : returns subscribing ≡ true
unfolding subscribing authorizing dispatch same_bytes handle_subscribe handle_authorize first_param
    before_dot sanitize send_difficulty_then_work authorize new_session
subscribing-returns = refl

abbrev third_world : World platform third_promise
third_world = record { session = (after subscribing).0; in_flight = []; settling = [] }

third_run :
    (events : List (Event platform)) × Run platform third_promise
      (opened platform third_promise third_pool (7 ∷ []) (pos 1700000000) 100)
      third_world
      events
unfolding authorizing subscribing new_session
third_run = (
  _,
  next
      (next here (
        dispatched _ third_pool (request (codes "mining.authorize") (codes "a.w" ∷ [])) 100 _ _
          third_pool-IsFaithful (after_ok authorizing authorizing-returns)))
      (dispatched _ third_pool (request (codes "mining.subscribe") (codes "m" ∷ [])) 100 _ _
        third_pool-IsFaithful (after_ok subscribing subscribing-returns)),
)

notifying : Outcome platform
unfolding subscribing
notifying = send_notify platform (after subscribing).0 third true

abbrev sends : Outcome platform → Bool
sends (ok (s, [])) = false
sends (ok (s, line ∷ events)) = true
sends (throw e) = false

notifying-sends : sends notifying ≡ true
unfolding notifying subscribing authorizing send_notify is_superseded dispatch same_bytes
    handle_subscribe handle_authorize first_param before_dot sanitize send_difficulty_then_work
    authorize new_session build_notify_line is_ready coinbase2_for
notifying-sends = refl

sent :
    (m : Outcome platform)
    → sends m ≡ true
    → (s : Session platform) × (line : Event platform) × (events : List (Event platform)) × (m
        ≡ ok (s, line ∷ events))
sent (throw e) h = cc
sent (ok (s, [])) h = cc
sent (ok (s, line ∷ events)) h = (s, line, events, refl)

stamped : ◌≢◌ {A = ℕ} 3 0
stamped h = omega arith

stamped' : ◌≢◌ {A = ℕ} 2 0
stamped' h = omega arith

-- The third publication is sent, the session is retargeted, and the second one comes late.
abbrev late : Session platform
late = (maybe_retarget platform third_pool (sent notifying notifying-sends).0 200).0

Run-is_superseded_example :
    send_notify platform late (record third { publication_sequence = 2 }) false ≡ ok (late, [])
unfolding notifying
Run-is_superseded_example =
    let (s, line, events, e) = sent notifying notifying-sends in
    let w : World platform third_promise = record third_world { session = s } in
    Run-is_superseded platform third_promise (7 ∷ []) first_byte-IsHash third_pool (pos 1700000000)
      100 third_world (record w { session = (maybe_retarget platform third_pool s 200).0 })
      third_run.0 _ third (record third { publication_sequence = 2 }) true false s line events
      third_run.1 refl stamped e (next here (retargeted w third_pool 200)) stamped' (omega arith)
