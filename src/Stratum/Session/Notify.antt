-- ===== src/Stratum/Session/Notify.antt =====
-- stratum/session.cpp: the lines of difficulties and jobs, and when a difficulty changes.
use erikslund_solo_pool.Prelude.{
  max, Bool, true, false, not, ◌&&◌, ◌||◌, List, [], ◌∷◌, Bytes, Option, none, some, leb, ◌==◌,
  if◌then◌else◌, same_bytes, Throws, ok, throw, bind,
}
use erikslund_solo_pool.Util.Hex.{to_hex}
use erikslund_solo_pool.Stratum.Message.{is_some}
use erikslund_solo_pool.Stratum.Message.Lines.{make_notify_line, make_set_difficulty_line}
use erikslund_solo_pool.Stratum.Job.{Job}
use erikslund_solo_pool.Stratum.Job.Work.{build_coinbase2}
use erikslund_solo_pool.Stratum.Seen.{rotate_on_notify}
use erikslund_solo_pool.Stratum.Vardiff.{vardiff_next}
use erikslund_solo_pool.Stratum.Session.{
  Platform, PoolContext, Session, Event, line_sent, Outcome, Value, Coinbase2Cache, LogicError,
  no_payout_script, begin_difficulty_change,
}

module _ (P : Platform) where
  -- The cache that `coinbase2_for` leaves and returns.
  unfoldable pub cache_for : Option Coinbase2Cache → Job (Value P) → Bytes → Coinbase2Cache
  cache_for none job payout_script =
      let coinbase2 = build_coinbase2 P.double job payout_script in
      record { job_id = job.job_id; coinbase2 = coinbase2; coinbase2_hex = to_hex coinbase2 }
  cache_for (some cache) job payout_script =
      let coinbase2 = build_coinbase2 P.double job payout_script in
      if same_bytes cache.job_id job.job_id
      then cache
      else record { job_id = job.job_id; coinbase2 = coinbase2; coinbase2_hex = to_hex coinbase2 }

  unfoldable pub coinbase2_with :
      Option Bytes → Session P → Job (Value P) → Throws LogicError (Session P × Coinbase2Cache)
  coinbase2_with none s job = throw no_payout_script
  coinbase2_with (some payout_script) s job =
      let cache = cache_for s.coinbase2_cache job payout_script in
      ok (record s { coinbase2_cache = some cache }, cache)

  unfoldable pub coinbase2_for :
      Session P → Job (Value P) → Throws LogicError (Session P × Coinbase2Cache)
  unfolding coinbase2_with
  coinbase2_for s job = coinbase2_with s.payout_script s job

  unfoldable pub is_ready : Session P → Bool
  unfolding is_some
  is_ready s = s.subscribed && s.authorized && is_some s.payout_script

  -- A session after a notification, and the line.
  unfoldable pub notified :
      Session P → Job (Value P) → Bool → Coinbase2Cache → Session P × Option Bytes
  notified s job clean coinbase2 = (
    record s { seen = rotate_on_notify s.seen clean; pending_difficulty_change = false },
    some (
        make_notify_line job.job_id job.prevhash_stratum job.coinbase1_hex coinbase2.coinbase2_hex
          job.merkle_branch_hex job.version_hex job.nbits_hex job.ntime_hex clean),
  )

  unfoldable pub build_notify_line :
      Session P → Job (Value P) → Bool → Throws LogicError (Session P × Option Bytes)
  unfolding notified
  build_notify_line s job clean =
      if not (is_ready s)
      then ok (s, none)
      else let stamped : Session P = record s {
        last_notified_publication_sequence =
            max s.last_notified_publication_sequence job.publication_sequence;
      } in
        bind (coinbase2_for stamped job) λ (s', coinbase2). ok (notified s' job clean coinbase2)

  unfoldable pub lines_of : Option Bytes → List (Event P)
  lines_of none = []
  lines_of (some line) = line_sent line ∷ []

  unfoldable pub is_superseded : Session P → Job (Value P) → Bool
  is_superseded s job =
      not (job.publication_sequence == 0)
      && leb job.publication_sequence s.last_notified_publication_sequence

  unfoldable pub send_notify : Session P → Job (Value P) → Bool → Outcome P
  unfolding lines_of
  send_notify s job clean =
      if is_superseded s job
      then ok (s, [])
      else bind (build_notify_line s job clean) λ (s', line). ok (s', lines_of line)

  -- The line of the difficulty in force.
  abbrev pub set_difficulty_sent : Session P → Event P
  set_difficulty_sent s = line_sent (make_set_difficulty_line P.double P.json s.difficulty)

  -- `send_set_difficulty`, under the mutex `do_send_set_difficulty`.
  unfoldable pub send_set_difficulty : Session P → List (Event P)
  send_set_difficulty s = set_difficulty_sent s ∷ []

  -- The difficulty of the session before the notification, then the work of the pool.
  unfoldable pub send_difficulty_then_work : PoolContext P → Session P → Outcome P
  unfolding lines_of
  send_difficulty_then_work pool s = elim pool.current_job [
    | none ↦ ok (s, set_difficulty_sent s ∷ [])
    | some job ↦
        bind (build_notify_line s job true)
          λ (s', notify). ok (s', set_difficulty_sent s ∷ lines_of notify)
  ]

  shares_per_minute : Session P → Value P → Value P
  shares_per_minute s elapsed =
      if P.double.less P.double.zero_value elapsed
      then P.double.mul (P.double.div (P.double.of_nat s.shares_since_retarget) elapsed)
          P.double.sixty
      else P.double.zero_value

  unfoldable pub next_difficulty : PoolContext P → Session P → Value P → Value P
  unfolding shares_per_minute
  next_difficulty pool s now =
      let config = pool.runtime_config in
      vardiff_next P.double s.difficulty (shares_per_minute s (P.double.sub now s.last_retarget))
        config.vardiff_target_shares_per_minute config.minimum_difficulty config.maximum_difficulty

  -- A session whose window is over.
  unfoldable pub retarget : PoolContext P → Session P → Value P → Session P × List (Event P)
  retarget pool s now =
      let new_difficulty = next_difficulty pool s now in
      let restarted : Session P = record s { shares_since_retarget = 0; last_retarget = now } in
      if P.double.same new_difficulty s.difficulty
      then (restarted, [])
      else let changed = begin_difficulty_change P restarted new_difficulty in
        (changed, send_set_difficulty changed)

  unfoldable pub maybe_retarget : PoolContext P → Session P → Value P → Session P × List (Event P)
  maybe_retarget pool s now =
      let config = pool.runtime_config in
      if not config.variable_difficulty || not s.authorized
      then (s, [])
      else if P.double.less (P.double.sub now s.last_retarget)
          (P.double.of_nat config.vardiff_retarget_seconds)
      then (s, [])
      else retarget pool s now
