-- ===== src/Stratum/Session/Judged.antt =====
-- The parts of a submission: what the pool is told is honest and is counted, and a share that is taken
-- to validation takes the coinbase of an address that the pool has validated.
use erikslund_solo_pool.Prelude.{
  ◌+◌, List, [], ◌∷◌, ◌++◌, Bytes, Option, none, some, ◌≡◌, refl, All, Bool, true, false, arith,
  sym, ◌∙◌, ap, inl, inr, Bool-cases, Option-cases, Throws-cases, Throws, ok, throw, bind, some_inj,
  split, not, not-false,
}
use erikslund_solo_pool.Prelude.Int.{ℤ}
use erikslund_solo_pool.Util.Difficulty.Target.{target_from_difficulty-IsBytes}
use erikslund_solo_pool.Stratum.Message.{
  StratumError, value_or, err_other, err_stale, err_duplicate, err_unauthorized, err_not_subscribed,
}
use erikslund_solo_pool.Stratum.Job.{Job}
use erikslund_solo_pool.Stratum.Job.Share.{ShareResult, RejectClass, stale, malformed, duplicate}
use erikslund_solo_pool.Stratum.Job.Accept.{IsHash, validate_share-IsAccepted, coinbase_of}
use erikslund_solo_pool.Stratum.Seen.{SeenShares}
use erikslund_solo_pool.Stratum.Session.{
  Platform, PoolContext, Session, Event, share_accepted, block_found, Value, RequestId, LogicError,
  Coinbase2Cache, send_error, is_misbehaviour, reject_share, record_accepted_share,
}
use erikslund_solo_pool.Stratum.Session.Notify.{coinbase2_for}
use erikslund_solo_pool.Stratum.Session.Submit.{
  Fields, Snapshot, Begun, replied, to_validate, is_oversize, fields_of, refused, refuse_share,
  found_events, snapshot_of, begin_remembered, begin_share, submit_fields, begin_submit, input_of,
  judge, credited, accept, error_of, Noted, share_taken, turned_down, note_share, settle_share,
}
use erikslund_solo_pool.Stratum.Session.Invariant.{Promise, IsFaithful, PaysSomebody, IsSound}
use erikslund_solo_pool.Stratum.Session.Safe.{
  IsCalm, IsQuiet, IsSafeCache, coinbase2_for-IsSafeCache,
}
use erikslund_solo_pool.Stratum.Session.Honest.{
  accepted_count, rejected_count, taken_count, turned_down_count, IsPayee, IsPaid, IsHonest, IsStep,
  IsFair,
}

module _ (P : Platform) (promise : Promise P) (extranonce1 : Bytes) where
  send_error-IsStep :
      (s : Session P) (id : RequestId P) (error : StratumError)
      → IsSound P promise s
      → IsStep P promise extranonce1 s (send_error P s id error).0 (send_error P s id error).1
  unfolding send_error accepted_count rejected_count
  send_error-IsStep s id error sound = elim (Bool-cases (is_misbehaviour P error)) [
    | inl e ↦ rw e (refl, omega arith, omega arith, omega arith, sound, (tt, tt))
    | inr e ↦ rw e (refl, omega arith, omega arith, omega arith, sound, (tt, tt))
  ]

  reject_share-IsStep :
      (s : Session P) (id : RequestId P) (accounting : P.Handle) (address worker : Bytes)
      (class : RejectClass) (error : StratumError)
      → IsPayee P promise extranonce1 address
      → IsSound P promise s
      → let (s', events) = reject_share P s id accounting address worker class error in
        IsStep P promise extranonce1 s s' events
  unfolding reject_share send_error accepted_count rejected_count
  reject_share-IsStep s id accounting address worker class error payee sound =
      elim (Bool-cases (is_misbehaviour P error)) [
        | inl e ↦ rw e (refl, omega arith, omega arith, omega arith, sound, (payee, (tt, tt)))
        | inr e ↦ rw e (refl, omega arith, omega arith, omega arith, sound, (payee, (tt, tt)))
      ]

  -- A list that begins with the block, if there is one.
  found-IsHonest :
      (is_block : Bool) (address worker : Bytes) (job : Job (Value P))
      (result : ShareResult (Value P)) (rest : List (Event P))
      → (is_block ≡ true → IsPaid P promise extranonce1 address job result)
      → All (IsHonest P promise extranonce1) rest
      → let events = found_events P is_block (block_found address worker job result) ++ rest in
        (accepted_count P events ≡ accepted_count P rest)
        × (rejected_count P events ≡ rejected_count P rest)
        × All (IsHonest P promise extranonce1) events
  unfolding found_events accepted_count rejected_count
  found-IsHonest true address worker job result rest paid honest = (refl, refl, (paid refl, honest))
  found-IsHonest false address worker job result rest paid honest = (refl, refl, honest)

  -- What the pool is told of a share is honest, and is what is left to count.
  abbrev pub IsNote : Noted P × List (Event P) → Type 0
  IsNote (noted, events) =
      (accepted_count P events ≡ taken_count P (noted ∷ []))
      × (rejected_count P events ≡ turned_down_count P (noted ∷ []))
      × All (IsHonest P promise extranonce1) events

  accept-IsNote :
      (snap : Snapshot P) (result : ShareResult (Value P))
      → IsPayee P promise extranonce1 snap.address
      → (result.is_block ≡ true → IsPaid P promise extranonce1 snap.address snap.job result)
      → IsNote (accept P snap result)
  unfolding accept accepted_count rejected_count taken_count turned_down_count
  accept-IsNote snap result payee paid =
      let told : List (Event P) =
        share_accepted snap.accounting snap.address snap.worker (credited P snap result.difficulty)
          result.difficulty
        ∷ [] in
      found-IsHonest result.is_block snap.address snap.worker snap.job result told paid (payee, tt)

  -- What settling a share does: it counts it, and tells the pool nothing.
  pub settle_share-IsSettled :
      (s : Session P) (noted : Noted P) (now_wall : ℤ) (now_steady : Value P)
      → IsSound P promise s
      → let (s', events) = settle_share P s noted now_wall now_steady in
        (s'.extranonce1 ≡ s.extranonce1)
        × (s'.shares_accepted ≡ s.shares_accepted + taken_count P (noted ∷ []))
        × (s'.shares_rejected ≡ s.shares_rejected + turned_down_count P (noted ∷ []))
        × IsSound P promise s'
        × All (IsQuiet P) events
  unfolding settle_share record_accepted_share send_error taken_count turned_down_count
  settle_share-IsSettled s (share_taken id credit difficulty) now_wall now_steady sound =
      (refl, omega arith, omega arith, sound, (tt, tt))
  settle_share-IsSettled s (turned_down id reason) now_wall now_steady sound =
      elim (Bool-cases (is_misbehaviour P (error_of reason))) [
        | inl e ↦ rw e (refl, omega arith, omega arith, sound, (tt, tt))
        | inr e ↦ rw e (refl, omega arith, omega arith, sound, (tt, tt))
      ]

  pub settle_share_keeps :
      (s : Session P) (noted : Noted P) (now_wall : ℤ) (now_steady : Value P)
      → (settle_share P s noted now_wall now_steady).0.last_notified_publication_sequence
        ≡ s.last_notified_publication_sequence
  unfolding settle_share record_accepted_share send_error
  settle_share_keeps s (share_taken id credit difficulty) now_wall now_steady = refl
  settle_share_keeps s (turned_down id reason) now_wall now_steady =
      split
        (λ (r : Session P × List (Event P)).
          r.0.last_notified_publication_sequence ≡ s.last_notified_publication_sequence)
        (is_misbehaviour P (error_of reason)) (λ _. refl) (λ _. refl)

  module _ (hash : IsHash P.sha256d) where
    judge-IsPaid :
        (s : Session P) (snap : Snapshot P) (now_unix : ℤ) (result : ShareResult (Value P))
        → s.extranonce1 ≡ extranonce1
        → IsFair P promise extranonce1 snap
        → judge P s snap now_unix ≡ ok result
        → result.is_block ≡ true
        → IsPaid P promise extranonce1 snap.address snap.job result
    unfolding judge input_of coinbase_of
    judge-IsPaid s snap now_unix result own fair h block =
        let accepted =
          validate_share-IsAccepted P.double P.sha256d P.sha256d64 snap.job hash
            (promise.target-IsBytes snap.job fair.is_published) (input_of P s snap now_unix) result
            (target_from_difficulty-IsBytes P.double _) h in
        record {
          script = fair.script;
          extranonce2 = accepted.extranonce2;
          is_script = fair.is_script;
          is_published = fair.is_published;
          fills = accepted.fills;
          pays = rw (← own, ← fair.has_coinbase2) accepted.is_solved.has_coinbase;
          solves = accepted.is_solved.is_block_iff.0 block;
        }

    pub note_share-IsNote :
        (s : Session P) (snap : Snapshot P) (now_unix : ℤ)
        → s.extranonce1 ≡ extranonce1
        → IsFair P promise extranonce1 snap
        → IsNote (note_share P s snap now_unix)
    unfolding note_share accepted_count rejected_count taken_count turned_down_count
    note_share-IsNote s snap now_unix own fair =
        let payee : IsPayee P promise extranonce1 snap.address = (fair.script, fair.is_script) in
        elim (Throws-cases (judge P s snap now_unix)) [
          | inl (result, e) ↦
              rw (note_share, e)
                (accept-IsNote snap result payee (judge-IsPaid s snap now_unix result own fair e))
          | inr (rejection, e) ↦ rw (note_share, e) (refl, refl, (payee, tt))
        ]

  abbrev pub IsBegun : Session P → Throws LogicError (Begun P) → Type 0
  IsBegun s (throw e) = ⊥
  IsBegun s (ok (replied s' events)) = IsStep P promise extranonce1 s s' events
  IsBegun s (ok (to_validate s' snap)) = IsCalm P promise s s' × IsFair P promise extranonce1 snap

  -- An authorized session pays its address.
  payee_of :
      (authorized : Bool) (address payout_script : Option Bytes) (cache : Option Coinbase2Cache)
      → authorized ≡ true
      → PaysSomebody P promise authorized address payout_script cache
      → (script : Bytes) × (payout_script ≡ some script)
        × (promise.validate (value_or address []) ≡ some script)
  payee_of authorized address none cache on pays = cc
  payee_of authorized none (some script) cache on pays = absurd pays
  payee_of authorized (some a) (some script) cache on pays = (script, refl, pays.1)

  refuse_share-IsBegun :
      (s : Session P) (id : RequestId P) (class : RejectClass) (error : StratumError)
      → s.authorized ≡ true
      → IsSound P promise s
      → IsBegun s (refuse_share P s id class error)
  unfolding refuse_share refused
  refuse_share-IsBegun s id class error on sound =
      let (script, paid, valid) =
        payee_of s.authorized s.address s.payout_script s.coinbase2_cache on sound in
      reject_share-IsStep s id s.worker_accounting (value_or s.address []) (value_or s.worker [])
        class error (script, valid) sound

  -- With the coinbase of the session.
  taken_with :
      (s : Session P) (id : RequestId P) (job : Job (Value P)) (fields : Fields) (script : Bytes)
      (m : Throws LogicError (Session P × Coinbase2Cache))
      → promise.IsPublished job
      → promise.validate (value_or s.address []) ≡ some script
      → s.payout_script ≡ some script
      → IsSafeCache P promise s job m
      → IsBegun s
          (bind m λ (s', coinbase2). ok (to_validate s' (snapshot_of P s' id job fields coinbase2)))
  unfolding snapshot_of
  taken_with s id job fields script (throw e) published valid paid safe = absurd safe
  taken_with s id job fields script (ok (s', cache)) published valid paid safe =
      let (calm, same, (other, paid', kept, made)) = safe in
      let one : script ≡ other = some_inj (sym paid ∙ paid') in
      (
        calm,
        record {
          script = script;
          is_script = ap (λ (t : Session P). promise.validate (value_or t.address [])) same ∙ valid;
          is_published = published;
          has_coinbase2 = rw one made;
        },
      )

  begin_remembered-IsBegun :
      (s : Session P) (id : RequestId P) (fields : Fields) (job : Job (Value P))
      (remembered : SeenShares × Bool)
      → promise.IsPublished job
      → s.authorized ≡ true
      → IsSound P promise s
      → IsBegun s (begin_remembered P s id fields job remembered)
  unfolding begin_remembered
  begin_remembered-IsBegun s id fields job (seen, false) published on sound =
      refuse_share-IsBegun (record s { seen = seen }) id duplicate err_duplicate on sound
  begin_remembered-IsBegun s id fields job (seen, true) published on sound =
      let (script, paid, valid) =
        payee_of s.authorized s.address s.payout_script s.coinbase2_cache on sound in
      let s' : Session P = record s { seen = seen } in
      taken_with s' id job fields script (coinbase2_for P s' job) published valid paid
        (coinbase2_for-IsSafeCache P promise s' job script published paid sound)

  begin_share-IsBegun :
      (pool : PoolContext P) (s : Session P) (id : RequestId P) (fields : Fields)
      (job : Job (Value P))
      → promise.IsPublished job
      → s.authorized ≡ true
      → IsSound P promise s
      → IsBegun s (begin_share P pool s id fields job)
  unfolding begin_share
  begin_share-IsBegun pool s id fields job published on sound =
      split (IsBegun s) (is_oversize pool.extranonce2_size fields)
        (λ _. refuse_share-IsBegun s id malformed err_other on sound)
        λ _. begin_remembered-IsBegun s id fields job _ published on sound

  -- Of an authorized session that has subscribed.
  submitted :
      (pool : PoolContext P) (s : Session P) (id : RequestId P) (params : List Bytes)
      → IsFaithful P promise pool
      → s.authorized ≡ true
      → IsSound P promise s
      → IsBegun s (submit_fields P pool s id (fields_of params))
  unfolding submit_fields refused
  submitted pool s id params faithful on sound = elim (Option-cases (fields_of params)) [
    | inl few ↦ rw (submit_fields, few) (send_error-IsStep s id err_other sound)
    | inr (fields, e) ↦ elim (Option-cases (pool.recent_job fields.job_id)) [
      | inl lost ↦ rw (submit_fields, e, lost) (refuse_share-IsBegun s id stale err_stale on sound)
      | inr (job, found) ↦
          rw (submit_fields, e, found)
            (begin_share-IsBegun pool s id fields job (faithful.recent fields.job_id job found) on
              sound)
    ]
  ]

  pub begin_submit-IsBegun :
      (pool : PoolContext P) (s : Session P) (id : RequestId P) (params : List Bytes)
      → IsFaithful P promise pool
      → IsSound P promise s
      → IsBegun s (begin_submit P pool s id params)
  unfolding begin_submit refused
  begin_submit-IsBegun pool s id params faithful sound =
      split (IsBegun s) (not s.authorized) (λ off. send_error-IsStep s id err_unauthorized sound)
        λ on.
          split (IsBegun s) (not s.subscribed)
            (λ out. send_error-IsStep s id err_not_subscribed sound)
            λ subscribed. submitted pool s id params faithful (not-false s.authorized on) sound
