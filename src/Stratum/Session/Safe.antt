-- ===== src/Stratum/Session/Safe.antt =====
-- The operations of a session apart from submissions are safe: they throw nothing, keep the session
-- sound, and leave the counters of shares alone.
use erikslund_solo_pool.Prelude.{
  Bool, true, ◌∷◌, ◌≤◌, max, Bytes, Option, none, some, ◌≡◌, refl, Throws, ok, throw, bind, All,
  Bool-cases, Option-cases, arith, ◌∙◌, inl, inr,
}
use erikslund_solo_pool.Stratum.Message.{is_some}
use erikslund_solo_pool.Stratum.Job.{Job}
use erikslund_solo_pool.Stratum.Job.Work.{build_coinbase2}
use erikslund_solo_pool.Stratum.Session.{
  Platform, PoolContext, Session, Event, line_sent, worker_attached, share_rejected, share_accepted,
  block_found, Outcome, Value, Coinbase2Cache, LogicError,
}
use erikslund_solo_pool.Stratum.Session.Notify.{
  cache_for, coinbase2_with, coinbase2_for, is_ready, notified, lines_of, build_notify_line,
  is_superseded, send_notify, send_difficulty_then_work,
}
use erikslund_solo_pool.Stratum.Session.Invariant.{
  Promise, IsFaithful, IsCacheOf, PaysSomebody, IsSound, cache_for-IsCacheOf,
}

module _ (P : Platform) where
  -- A line, or the registration of the worker.
  abbrev pub IsQuiet : Event P → Type 0
  IsQuiet (line_sent line) = Unit
  IsQuiet (worker_attached address worker) = Unit
  IsQuiet (share_rejected accounting address worker class) = ⊥
  IsQuiet (share_accepted accounting address worker credited difficulty) = ⊥
  IsQuiet (block_found address worker job result) = ⊥

  module _ (promise : Promise P) where
    -- From the first session to the second: what the counters, the authorization and the highest
    -- publication do.
    abbrev pub IsCalm : Session P → Session P → Type 0
    IsCalm s s' =
        (s'.extranonce1 ≡ s.extranonce1)
        × (s'.shares_accepted ≡ s.shares_accepted)
        × (s'.shares_rejected ≡ s.shares_rejected)
        × (s.last_notified_publication_sequence ≤ s'.last_notified_publication_sequence)
        × IsSound P promise s'

    abbrev pub IsSafe : Session P → Outcome P → Type 0
    IsSafe s (ok (s', events)) = IsCalm s s' × All IsQuiet events
    IsSafe s (throw e) = ⊥

    -- The same for a notification that is built.
    abbrev pub IsSafeLine : Session P → Throws LogicError (Session P × Option Bytes) → Type 0
    IsSafeLine s (ok (s', line)) = IsCalm s s'
    IsSafeLine s (throw e) = ⊥

    abbrev pub IsSafeCache :
        Session P → Job (Value P) → Throws LogicError (Session P × Coinbase2Cache) → Type 0
    IsSafeCache s job (throw e) = ⊥
    IsSafeCache s job (ok (s', cache)) =
        IsCalm s s'
        × (s' ≡ record s { coinbase2_cache = some cache })
        × ((script : Bytes) × (s.payout_script ≡ some script)
            × IsCacheOf P promise cache script
            × (cache.coinbase2 ≡ build_coinbase2 P.double job script))

    cached :
        (authorized : Bool) (address payout_script : Option Bytes) (cache : Option Coinbase2Cache)
        (job : Job (Value P)) (script : Bytes)
        → promise.IsPublished job
        → payout_script ≡ some script
        → PaysSomebody P promise authorized address payout_script cache
        → let found = cache_for P cache job script in
          PaysSomebody P promise authorized address payout_script (some found)
          × IsCacheOf P promise found script
          × (found.coinbase2 ≡ build_coinbase2 P.double job script)
    cached authorized address none cache job script published e pays = cc
    cached authorized none (some other) cache job script published e pays = absurd pays
    cached authorized (some a) (some other) cache job script published e pays =
        let same : other ≡ script = cc in
        let (now, valid, held) = pays in
        let (kept, made) =
          cache_for-IsCacheOf P promise cache job script published (rw same at held) in
        rw same ((now, rw same at valid, kept), kept, made)

    with_script :
        (payout_script : Option Bytes) (s : Session P) (job : Job (Value P)) (script : Bytes)
        → payout_script ≡ some script
        → coinbase2_with P payout_script s job
          ≡ ok (
            record s { coinbase2_cache = some (cache_for P s.coinbase2_cache job script) },
            cache_for P s.coinbase2_cache job script,
          )
    unfolding coinbase2_with
    with_script payout_script s job script e = rw e refl

    pub coinbase2_for-IsSafeCache :
        (s : Session P) (job : Job (Value P)) (script : Bytes)
        → promise.IsPublished job
        → s.payout_script ≡ some script
        → IsSound P promise s
        → IsSafeCache s job (coinbase2_for P s job)
    unfolding coinbase2_for
    coinbase2_for-IsSafeCache s job script published paid sound =
        let (pays, kept, made) =
          cached s.authorized s.address s.payout_script s.coinbase2_cache job script published paid
            sound in
        rw (with_script s.payout_script s job script paid)
          ((refl, refl, refl, omega arith, pays), refl, (script, paid, kept, made))

    has_script :
        (s : Session P) → is_ready P s ≡ true → (script : Bytes) × (s.payout_script ≡ some script)
    unfolding is_ready is_some
    has_script s ready = elim (Option-cases s.payout_script) [
      | inl e ↦ absurd (ground arith)
      | inr found ↦ found
    ]

    notify_with :
        (s stamped : Session P) (job : Job (Value P)) (clean : Bool)
        (m : Throws LogicError (Session P × Coinbase2Cache))
        → IsCalm s stamped
        → IsSafeCache stamped job m
        → IsSafeLine s (bind m λ (s', coinbase2). ok (notified P s' job clean coinbase2))
    unfolding notified
    notify_with s stamped job clean (throw e) calm safe = absurd safe
    notify_with s stamped job clean (ok (s', cache)) calm safe = (
      safe.0.0 ∙ calm.0,
      safe.0.1 ∙ calm.1,
      safe.0.2 ∙ calm.2,
      omega (arith, calm.3, safe.0.3),
      safe.0.4,
    )

    pub build_notify_line-IsSafeLine :
        (s : Session P) (job : Job (Value P)) (clean : Bool)
        → promise.IsPublished job
        → IsSound P promise s
        → IsSafeLine s (build_notify_line P s job clean)
    unfolding build_notify_line
    build_notify_line-IsSafeLine s job clean published sound = elim (Bool-cases (is_ready P s)) [
      | inr out ↦ rw out (refl, refl, refl, omega arith, sound)
      | inl ready ↦
          let (script, paid) = has_script s ready in
          let stamped : Session P = record s {
            last_notified_publication_sequence =
                max s.last_notified_publication_sequence job.publication_sequence;
          } in
          rw ready (
            notify_with s stamped job clean (coinbase2_for P stamped job)
              (refl, refl, refl, omega arith, sound)
              (coinbase2_for-IsSafeCache stamped job script published paid sound))
    ]

    lines_of-IsQuiet : (line : Option Bytes) → All IsQuiet (lines_of P line)
    unfolding lines_of
    lines_of-IsQuiet none = tt
    lines_of-IsQuiet (some line) = (tt, tt)

    sends_line :
        (s : Session P) (m : Throws LogicError (Session P × Option Bytes))
        → IsSafeLine s m
        → IsSafe s (bind m λ (s', line). ok (s', lines_of P line))
    sends_line s (throw e) safe = absurd safe
    sends_line s (ok (s', line)) safe = (safe, lines_of-IsQuiet line)

    pub send_notify-IsSafe :
        (s : Session P) (job : Job (Value P)) (clean : Bool)
        → promise.IsPublished job
        → IsSound P promise s
        → IsSafe s (send_notify P s job clean)
    unfolding send_notify
    send_notify-IsSafe s job clean published sound = elim (Bool-cases (is_superseded P s job)) [
      | inl old ↦ rw old ((refl, refl, refl, omega arith, sound), tt)
      | inr new ↦ rw new (
          sends_line s (build_notify_line P s job clean)
            (build_notify_line-IsSafeLine s job clean published sound))
    ]

    sends_work :
        (s : Session P) (m : Throws LogicError (Session P × Option Bytes)) (sent : Bytes)
        → IsSafeLine s m
        → IsSafe s (bind m λ (s', notify). ok (s', line_sent sent ∷ lines_of P notify))
    sends_work s (throw e) sent safe = absurd safe
    sends_work s (ok (s', line)) sent safe = (safe, (tt, lines_of-IsQuiet line))

    pub send_difficulty_then_work-IsSafe :
        (pool : PoolContext P) (s : Session P)
        → IsFaithful P promise pool
        → IsSound P promise s
        → IsSafe s (send_difficulty_then_work P pool s)
    unfolding send_difficulty_then_work
    send_difficulty_then_work-IsSafe pool s faithful sound = elim (Option-cases pool.current_job) [
      | inl e ↦ rw e ((refl, refl, refl, omega arith, sound), (tt, tt))
      | inr (job, e) ↦ rw e (
          sends_work s (build_notify_line P s job true) _
            (build_notify_line-IsSafeLine s job true (faithful.current job e) sound))
    ]
