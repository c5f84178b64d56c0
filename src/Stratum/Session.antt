-- ===== src/Stratum/Session.antt =====
-- stratum/session.hpp and session.cpp: the state of a connection of the first protocol, and the
-- operations on it that its handlers share. An operation takes the session and returns the new one with
-- what it does outside: the lines that it sends and its calls of the pool, in their order. The pool is a
-- record of what it answers at that time. A mutex makes every operation, and the first and the last part
-- of a submission, a single step; the part between them, without the mutex, reads of the session only what
-- is never written. Log lines are left out.
pub mod Notify
pub mod Handlers
pub mod Submit
pub mod Invariant
pub mod Safe
pub mod Answers
pub mod Honest
pub mod Judged
pub mod Steps
pub mod Runs
pub mod Superseded
pub mod Replies
pub mod Credit
pub mod Status
use erikslund_solo_pool.Prelude.{
  ℕ, suc, ◌+◌, Bool, true, false, ◌||◌, List, [], ◌∷◌, Bytes, Option, none, some, ◌==◌,
  if◌then◌else◌, Throws, codes,
}
use erikslund_solo_pool.Prelude.Int.{ℤ, pos}
use erikslund_solo_pool.Prelude.Double.{Double, max_of}
use erikslund_solo_pool.Util.Hex.{to_hex}
use erikslund_solo_pool.Util.Merkle.{Hash256}
use erikslund_solo_pool.Stats.Hashrate.{
  DecayingWindows, hashrate_window_sizes, new_windows, add_rate,
}
use erikslund_solo_pool.Stratum.Json.{Json}
use erikslund_solo_pool.Stratum.Message.{
  StratumError, err_other, err_unauthorized, err_not_subscribed,
}
use erikslund_solo_pool.Stratum.Message.Lines.{make_error_line, make_result_line}
use erikslund_solo_pool.Stratum.Job.{Job}
use erikslund_solo_pool.Stratum.Job.Share.{RejectClass, ShareResult}
use erikslund_solo_pool.Stratum.Seen.{SeenShares}

-- What the program stands on: doubles, the JSON library, the hashes, and the pool's handle of the
-- accounting of a worker.
pub record Platform : Type 1 where
  pub double : Double
  pub json : Json double.Value
  pub sha256d : Bytes → Hash256
  pub sha256d64 : Bytes → Hash256
  pub Handle : Type 0
  pub no_handle : Handle

-- The fields of `RuntimeConfig` that sessions read.
pub record RuntimeConfig (Value : Type 0) : Type 0 where
  pub initial_difficulty : Value
  pub minimum_difficulty : Value
  pub maximum_difficulty : Value
  pub variable_difficulty : Bool
  pub vardiff_target_shares_per_minute : Value
  pub vardiff_retarget_seconds : ℕ

-- `Coinbase2Cache`.
pub record Coinbase2Cache : Type 0 where
  pub job_id : Bytes
  pub coinbase2 : Bytes
  pub coinbase2_hex : Bytes

-- `coinbase2_for` before there is a script.
pub data LogicError : Type 0 where
  no_payout_script : LogicError

module _ (P : Platform) where
  abbrev pub Value : Type 0
  Value = P.double.Value

  abbrev pub RequestId : Type 0
  RequestId = P.json.Value

  -- The answers of the pool, the interface `PoolContext`.
  pub record PoolContext : Type 0 where
    pub extranonce2_size : ℕ
    pub runtime_config : RuntimeConfig Value
    pub validate_address : Bytes → Option Bytes
    pub current_job : Option (Job Value)
    pub recent_job : Bytes → Option (Job Value)
    pub attach_worker : Bytes → Bytes → P.Handle
    pub pool_version_mask : ℕ

  -- What a session does outside: it sends a line, or calls the pool.
  pub data Event : Type 0 where
    line_sent : Bytes → Event
    worker_attached : Bytes → Bytes → Event
    share_rejected : P.Handle → Bytes → Bytes → RejectClass → Event
    share_accepted : P.Handle → Bytes → Bytes → Value → Value → Event
    block_found : Bytes → Bytes → Job Value → ShareResult Value → Event

  pub record Session : Type 0 where
    pub extranonce1 : Bytes
    pub extranonce1_hex : Bytes
    pub subscribed : Bool
    pub authorized : Bool
    pub protocol_errors : ℕ
    pub address : Option Bytes
    pub worker : Option Bytes
    pub payout_script : Option Bytes
    pub worker_accounting : P.Handle
    pub difficulty : Value
    pub previous_difficulty : Value
    pub pending_difficulty_change : Bool
    pub connected_at : ℤ
    pub connected_at_steady : Value
    pub last_share_timestamp : ℤ
    pub last_retarget : Value
    pub shares_since_retarget : ℕ
    pub version_mask : ℕ
    pub user_agent : Bytes
    pub shares_accepted : ℕ
    pub shares_rejected : ℕ
    pub best_difficulty : Value
    pub total_share_difficulty : Value
    pub hashrate : DecayingWindows Value
    pub coinbase2_cache : Option Coinbase2Cache
    pub seen : SeenShares
    pub last_notified_publication_sequence : ℕ

  -- An operation that may throw.
  abbrev pub Outcome : Type 0
  Outcome = Throws LogicError (Session × List Event)

  -- The constructor, at a time of each of the two clocks.
  unfoldable pub new_session : PoolContext → Bytes → ℤ → Value → Session
  new_session pool extranonce1 now_wall now_steady = record {
    extranonce1 = extranonce1;
    extranonce1_hex = to_hex extranonce1;
    subscribed = false;
    authorized = false;
    protocol_errors = 0;
    address = none;
    worker = none;
    payout_script = none;
    worker_accounting = P.no_handle;
    difficulty =
        max_of P.double pool.runtime_config.initial_difficulty
          pool.runtime_config.minimum_difficulty;
    previous_difficulty = P.double.zero_value;
    pending_difficulty_change = false;
    connected_at = now_wall;
    connected_at_steady = now_steady;
    last_share_timestamp = pos 0;
    last_retarget = now_steady;
    shares_since_retarget = 0;
    version_mask = 0;
    user_agent = codes "?";
    shares_accepted = 0;
    shares_rejected = 0;
    best_difficulty = P.double.zero_value;
    total_share_difficulty = P.double.zero_value;
    hashrate = new_windows P.double hashrate_window_sizes now_steady;
    coinbase2_cache = none;
    seen = record { current = []; previous = [] };
    last_notified_publication_sequence = 0;
  }

  -- Whether an error counts against the client.
  unfoldable pub is_misbehaviour : StratumError → Bool
  is_misbehaviour error =
      error.code == err_other.code
      || error.code == err_unauthorized.code
      || error.code == err_not_subscribed.code

  unfoldable pub send_error : Session → RequestId → StratumError → Session × List Event
  send_error s id error =
      let line = line_sent (make_error_line P.double P.json id error) in
      if is_misbehaviour error
      then (record s { protocol_errors = suc s.protocol_errors }, line ∷ [])
      else (s, line ∷ [])

  -- `send_result` of a truth value.
  abbrev pub result_sent : RequestId → Bool → Event
  result_sent id result = line_sent (make_result_line P.double P.json id result)

  unfoldable pub begin_difficulty_change : Session → Value → Session
  begin_difficulty_change s new_difficulty = record s {
    previous_difficulty =
        if s.pending_difficulty_change then s.previous_difficulty else s.difficulty;
    difficulty = new_difficulty;
    pending_difficulty_change = true;
  }

  unfoldable pub record_accepted_share : Session → Value → Value → ℤ → Value → Session
  record_accepted_share s credited share_difficulty now_wall now_steady = record s {
    shares_accepted = suc s.shares_accepted;
    protocol_errors = 0;
    shares_since_retarget = suc s.shares_since_retarget;
    total_share_difficulty = P.double.add s.total_share_difficulty credited;
    last_share_timestamp = now_wall;
    hashrate = add_rate P.double s.hashrate credited now_steady;
    best_difficulty = max_of P.double s.best_difficulty share_difficulty;
  }

  -- A rejection: the count, the note to the pool, and the error.
  unfoldable pub reject_share :
      Session
      → RequestId
      → P.Handle
      → Bytes
      → Bytes
      → RejectClass
      → StratumError
      → Session × List Event
  reject_share s id accounting address worker class error =
      let (s', sent) = send_error (record s { shares_rejected = suc s.shares_rejected }) id error in
      (s', share_rejected accounting address worker class ∷ sent)
