-- ===== src/Stratum/Session/Submit.antt =====
-- stratum/session.cpp: a submission, in three parts. The first, under the mutex, checks it and takes what
-- the validation needs from the session; the second validates the share and tells the pool, without the
-- mutex; the third takes the mutex again to count the share and to reply. Other operations may come
-- between the parts.
use erikslund_solo_pool.Prelude.{
  ℕ, suc, ◌*◌, Bool, true, false, not, ◌||◌, List, [], ◌∷◌, ◌++◌, Bytes, Option, none, some, length,
  ltb, ◌==◌, if◌then◌else◌, same_bytes, Throws, ok, throw, bind, codes,
}
use erikslund_solo_pool.Prelude.Int.{ℤ}
use erikslund_solo_pool.Prelude.Double.{max_of, min_of}
use erikslund_solo_pool.Util.Difficulty.{target_from_difficulty}
use erikslund_solo_pool.Stratum.Message.{
  err_other, err_stale, err_duplicate, err_low_difficulty, err_unauthorized, err_not_subscribed,
  StratumError, value_or,
}
use erikslund_solo_pool.Stratum.Message.Parse.{parse_request}
use erikslund_solo_pool.Stratum.Job.{Job}
use erikslund_solo_pool.Stratum.Job.Share.{
  ShareReject, above_target, ShareResult, ShareInput, RejectClass, stale, malformed, duplicate,
  reject_class_of, validate_share, Validated,
}
use erikslund_solo_pool.Stratum.Seen.{SeenShares, remember, make_dedup_key}
use erikslund_solo_pool.Stratum.Session.{
  Platform, PoolContext, Session, Event, share_accepted, share_rejected, block_found, Outcome,
  Value, RequestId, LogicError, Coinbase2Cache, send_error, result_sent, reject_share,
  record_accepted_share,
}
use erikslund_solo_pool.Stratum.Session.Notify.{coinbase2_for}
use erikslund_solo_pool.Stratum.Session.Handlers.{dispatch}

-- The parameters of a submission, of which there are five or six: the user, which is not read, the job
-- and the fields of the share.
pub record Fields : Type 0 where
  pub job_id : Bytes
  pub extranonce2 : Bytes
  pub ntime : Bytes
  pub nonce : Bytes
  pub version_bits : Option Bytes

version_bits_of : List Bytes → Option Bytes
version_bits_of [] = none
version_bits_of (param ∷ params) = if length param == 0 then none else some param

unfoldable pub fields_of : List Bytes → Option Fields
unfolding version_bits_of
fields_of (user ∷ (job_id ∷ (extranonce2 ∷ (ntime ∷ (nonce ∷ params))))) = some record {
  job_id = job_id;
  extranonce2 = extranonce2;
  ntime = ntime;
  nonce = nonce;
  version_bits = version_bits_of params;
}
fields_of params = none

unfoldable pub is_oversize : ℕ → Fields → Bool
is_oversize extranonce2_size fields =
    ltb (extranonce2_size * 2) (length fields.extranonce2)
    || ltb 8 (length fields.ntime)
    || ltb 8 (length fields.nonce)
    || elim fields.version_bits [ none ↦ false | some bits ↦ ltb 8 (length bits) ]

-- The error of a share that is rejected.
unfoldable pub error_of : ShareReject → StratumError
error_of above_target = err_low_difficulty
error_of _ = err_other

module _ (P : Platform) where
  -- What the first part takes for the others.
  pub record Snapshot : Type 0 where
    pub id : RequestId P
    pub job : Job (Value P)
    pub fields : Fields
    pub coinbase2 : Coinbase2Cache
    pub accounting : P.Handle
    pub address : Bytes
    pub worker : Bytes
    pub snap_difficulty : Value P
    pub snap_previous : Value P
    pub snap_pending : Bool
    pub snap_version_mask : ℕ

  -- How the first part ends: with the reply, or with a share to validate.
  pub data Begun : Type 0 where
    replied : Session P → List (Event P) → Begun
    to_validate : Session P → Snapshot → Begun

  unfoldable pub refused : Session P × List (Event P) → Throws LogicError Begun
  refused outcome = ok (replied outcome.0 outcome.1)

  -- A refusal that counts as a rejected share.
  unfoldable pub refuse_share :
      Session P → RequestId P → RejectClass → StratumError → Throws LogicError Begun
  unfolding refused
  refuse_share s id class error = refused (
      reject_share P s id s.worker_accounting (value_or s.address []) (value_or s.worker []) class
        error)

  unfoldable pub snapshot_of :
      Session P → RequestId P → Job (Value P) → Fields → Coinbase2Cache → Snapshot
  snapshot_of s id job fields coinbase2 = record {
    id = id;
    job = job;
    fields = fields;
    coinbase2 = coinbase2;
    accounting = s.worker_accounting;
    address = value_or s.address [];
    worker = value_or s.worker [];
    snap_difficulty = s.difficulty;
    snap_previous = s.previous_difficulty;
    snap_pending = s.pending_difficulty_change;
    snap_version_mask = s.version_mask;
  }

  -- With the seen shares that the key leaves, and whether it is new.
  unfoldable pub begin_remembered :
      Session P → RequestId P → Fields → Job (Value P) → SeenShares × Bool → Throws LogicError Begun
  unfolding refuse_share snapshot_of
  begin_remembered s id fields job (seen, false) =
      refuse_share (record s { seen = seen }) id duplicate err_duplicate
  begin_remembered s id fields job (seen, true) =
      bind (coinbase2_for P (record s { seen = seen }) job)
        λ (s', coinbase2). ok (to_validate s' (snapshot_of s' id job fields coinbase2))

  -- Once the job is found.
  unfoldable pub begin_share :
      PoolContext P → Session P → RequestId P → Fields → Job (Value P) → Throws LogicError Begun
  unfolding refuse_share begin_remembered
  begin_share pool s id fields job =
      if is_oversize pool.extranonce2_size fields
      then refuse_share s id malformed err_other
      else begin_remembered s id fields job (
          remember s.seen (
            make_dedup_key fields.job_id fields.extranonce2 fields.ntime fields.nonce
              fields.version_bits s.version_mask))

  unfoldable pub submit_fields :
      PoolContext P → Session P → RequestId P → Option Fields → Throws LogicError Begun
  unfolding refused refuse_share begin_share
  submit_fields pool s id none = refused (send_error P s id err_other)
  submit_fields pool s id (some fields) = elim (pool.recent_job fields.job_id) [
    | none ↦ refuse_share s id stale err_stale
    | some job ↦ begin_share pool s id fields job
  ]

  unfoldable pub begin_submit :
      PoolContext P → Session P → RequestId P → List Bytes → Throws LogicError Begun
  unfolding refused submit_fields
  begin_submit pool s id params =
      if not s.authorized
      then refused (send_error P s id err_unauthorized)
      else if not s.subscribed
      then refused (send_error P s id err_not_subscribed)
      else submit_fields pool s id (fields_of params)

  unfoldable pub accept_difficulty : Snapshot → Value P
  accept_difficulty snap =
      if snap.snap_pending
      then min_of P.double snap.snap_difficulty snap.snap_previous
      else snap.snap_difficulty

  unfoldable pub input_of : Session P → Snapshot → ℤ → ShareInput
  input_of s snap now_unix = record {
    coinbase2 = snap.coinbase2.coinbase2;
    extranonce1 = s.extranonce1;
    extranonce2_hex = snap.fields.extranonce2;
    ntime_hex = snap.fields.ntime;
    nonce_hex = snap.fields.nonce;
    share_target = target_from_difficulty P.double (accept_difficulty snap);
    version_bits_hex = snap.fields.version_bits;
    version_mask = snap.snap_version_mask;
    now_unix = now_unix;
  }

  -- `extranonce1_` is never written after the constructor, so that it may be read at any time.
  unfoldable pub judge : Session P → Snapshot → ℤ → Validated P.double P.sha256d P.sha256d64
  judge s snap now_unix =
      validate_share P.double P.sha256d P.sha256d64 snap.job (input_of s snap now_unix)

  unfoldable pub credited : Snapshot → Value P → Value P
  credited snap difficulty =
      let hi = max_of P.double snap.snap_difficulty snap.snap_previous in
      let lo = min_of P.double snap.snap_difficulty snap.snap_previous in
      if snap.snap_pending
      then (if not (P.double.less difficulty hi) then hi else lo)
      else snap.snap_difficulty

  unfoldable pub found_events : Bool → Event P → List (Event P)
  found_events true found = found ∷ []
  found_events false found = []

  -- What is left to count of a share that the pool has been told of: what it is credited with and its
  -- own difficulty, or why it was rejected.
  pub data Noted : Type 0 where
    share_taken : RequestId P → Value P → Value P → Noted
    turned_down : RequestId P → ShareReject → Noted

  unfoldable pub accept : Snapshot → ShareResult (Value P) → Noted × List (Event P)
  unfolding found_events
  accept snap result =
      let credit = credited snap result.difficulty in
      (
        share_taken snap.id credit result.difficulty,
        found_events result.is_block (block_found snap.address snap.worker snap.job result)
            ++ (share_accepted snap.accounting snap.address snap.worker credit result.difficulty
                ∷ []),
      )

  -- The validation and the calls of the pool that follow it, all without the mutex; nothing of the
  -- session is written.
  unfoldable pub note_share : Session P → Snapshot → ℤ → Noted × List (Event P)
  unfolding accept
  note_share s snap now_unix = elim (judge s snap now_unix) [
    | throw rejection ↦ (
      turned_down snap.id rejection.reason,
      share_rejected snap.accounting snap.address snap.worker (reject_class_of rejection.reason)
          ∷ [],
    )
    | ok result ↦ accept snap result
  ]

  -- The end, under the mutex: the count and the reply.
  unfoldable pub settle_share : Session P → Noted → ℤ → Value P → Session P × List (Event P)
  settle_share s (share_taken id credit difficulty) now_wall now_steady =
      (record_accepted_share P s credit difficulty now_wall now_steady, result_sent P id true ∷ [])
  settle_share s (turned_down id reason) now_wall now_steady =
      send_error P (record s { shares_rejected = suc s.shares_rejected }) id (error_of reason)

  -- The rest of a submission with nothing in between.
  unfoldable pub finish_submit : Session P → Snapshot → ℤ → ℤ → Value P → Session P × List (Event P)
  finish_submit s snap now_unix now_wall now_steady =
      let (noted, notes) = note_share s snap now_unix in
      let (s', sent) = settle_share s noted now_wall now_steady in (s', notes ++ sent)

  unfoldable pub finish_begun : Begun → ℤ → ℤ → Value P → Outcome P
  finish_begun (replied s events) now_unix now_wall now_steady = ok (s, events)
  finish_begun (to_validate s snap) now_unix now_wall now_steady =
      ok (finish_submit s snap now_unix now_wall now_steady)

  -- The parts with nothing between them.
  unfoldable pub handle_submit :
      PoolContext P → Session P → RequestId P → List Bytes → ℤ → ℤ → Value P → Outcome P
  unfolding finish_begun
  handle_submit pool s id params now_unix now_wall now_steady =
      bind (begin_submit pool s id params) λ begun. finish_begun begun now_unix now_wall now_steady

  unfoldable pub handle_line : PoolContext P → Session P → Bytes → ℤ → ℤ → Value P → Outcome P
  handle_line pool s line now_unix now_wall now_steady = elim (parse_request P.double P.json line) [
    | none ↦ ok (s, [])
    | some request ↦
        if same_bytes request.method (codes "mining.submit")
        then handle_submit pool s request.id request.params now_unix now_wall now_steady
        else dispatch P pool s request now_steady
  ]
