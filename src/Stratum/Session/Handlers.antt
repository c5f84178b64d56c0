-- ===== src/Stratum/Session/Handlers.antt =====
-- stratum/session.cpp: the handlers of the requests other than a submission, and `dispatch`. The log
-- line of a failed authorization and that of a good one are left out.
use erikslund_solo_pool.Prelude.{
  ℕ, ◌+◌, ◌-◌, ◌*◌, ◌^◌, bit_and, Bool, true, false, not, ◌&&◌, ◌||◌, List, [], ◌∷◌, ◌++◌, Bytes,
  Option, none, some, length, leb, ◌==◌, if◌then◌else◌, same_bytes, ok, bind, codes,
}
use erikslund_solo_pool.Core.Logging.{sanitize, ascii_only, log_limit}
use erikslund_solo_pool.Util.Hex.{hex_table}
use erikslund_solo_pool.Util.Hex.Words.{format_08x}
use erikslund_solo_pool.Stratum.Message.{Request, err_other, value_or, is_some}
use erikslund_solo_pool.Stratum.Message.Lines.{make_result, make_error_line}
use erikslund_solo_pool.Stratum.Vardiff.{clamp_suggested_difficulty}
use erikslund_solo_pool.Stratum.Session.{
  Platform, PoolContext, Session, Event, line_sent, worker_attached, Outcome, Value, RequestId,
  send_error, result_sent, begin_difficulty_change,
}
use erikslund_solo_pool.Stratum.Session.Notify.{send_difficulty_then_work, send_set_difficulty}

-- `std::stoul` in base 16; nothing when a character is no digit.
stoul_16 : ℕ → Bytes → Option ℕ
stoul_16 value [] = some value
stoul_16 value (c ∷ mask) = elim (hex_table c) [
  | none ↦ none
  | some digit ↦ stoul_16 (value * 16 + digit) mask
]

-- The mask that a client gives in a string: 0 when it cannot be read.
read_mask : Bytes → ℕ
unfolding stoul_16
read_mask mask =
    if not (length mask == 0) && leb (length mask) 8 then value_or (stoul_16 0 mask) 0 else 0

unfoldable pub client_mask_of : Bool → Option Bytes → ℕ
unfolding read_mask
client_mask_of false mask = 2 ^ 32 - 1
client_mask_of true none = 0
client_mask_of true (some mask) = read_mask mask

-- `username.substr(0, username.find('.'))`.
unfoldable pub before_dot : Bytes → Bytes
before_dot [] = []
before_dot (c ∷ text) = let rest = before_dot text in if c == b'.' then [] else c ∷ rest

-- The text behind the first dot, and none when there is no dot.
unfoldable pub after_dot : Bytes → Option Bytes
after_dot [] = none
after_dot (c ∷ text) = let rest = after_dot text in if c == b'.' then some text else rest

unfoldable pub worker_of : Bytes → Bytes
worker_of param = elim (after_dot param) [ none ↦ [] | some raw ↦ ascii_only raw log_limit ]

-- `params.empty() || params[0].empty()` is the empty text.
unfoldable pub first_param : List Bytes → Bytes
first_param [] = []
first_param (param ∷ params) = param

unfoldable pub same_script : Option Bytes → Bytes → Bool
same_script none script = false
same_script (some payout_script) script = same_bytes payout_script script

module _ (P : Platform) where
  -- The answer to a subscription.
  subscription : PoolContext P → Session P → RequestId P
  subscription pool s =
      let J = P.json in
      let entry : Bytes → RequestId P =
        λ method. J.array (J.string method ∷ J.string s.extranonce1_hex ∷ []) in
      J.array (
        J.array (entry (codes "mining.set_difficulty") ∷ entry (codes "mining.notify") ∷ [])
        ∷ J.string s.extranonce1_hex
        ∷ J.number (P.double.of_nat pool.extranonce2_size)
        ∷ [])

  -- `send` of a document.
  unfoldable pub send_json : RequestId P → Event P
  send_json message = line_sent (value_or (P.json.write_json message) [])

  unfoldable pub subscribe : Session P → List Bytes → Session P
  subscribe s params = record s {
    user_agent =
        if length (first_param params) == 0
        then s.user_agent
        else sanitize (first_param params) log_limit;
    subscribed = true;
  }

  unfoldable pub handle_subscribe : PoolContext P → Session P → RequestId P → List Bytes → Outcome P
  unfolding subscribe subscription send_json is_some
  handle_subscribe pool s id params =
      let s' = subscribe s params in
      let sent = send_json (make_result P.double P.json id (subscription pool s')) in
      if s'.authorized && is_some s'.payout_script
      then (bind (send_difficulty_then_work P pool s') λ (s'', events). ok (s'', sent ∷ events))
      else ok (s', sent ∷ [])

  has_key : List (Bytes × RequestId P) → Bytes → Bool
  has_key [] key = false
  has_key (entry ∷ entries) key = same_bytes entry.0 key || has_key entries key

  -- The loop over the extensions, on the entries that the result has.
  refuse_extensions : List Bytes → List (Bytes × RequestId P) → List (Bytes × RequestId P)
  unfolding has_key
  refuse_extensions [] result = result
  refuse_extensions (extension ∷ extensions) result = refuse_extensions extensions (
      if not (same_bytes extension (codes "version-rolling")) && not (has_key result extension)
      then result ++ ((extension, P.json.boolean false) ∷ [])
      else result)

  rolling_entries : ℕ → List (Bytes × RequestId P)
  rolling_entries version_mask =
      (codes "version-rolling", P.json.boolean (not (version_mask == 0)))
      ∷ (codes "version-rolling.mask", P.json.string (format_08x version_mask))
      ∷ []

  unfoldable pub handle_configure :
      PoolContext P → Session P → Request (RequestId P) (Value P) → Session P × List (Event P)
  unfolding refuse_extensions rolling_entries send_json
  handle_configure pool s request =
      let client_mask =
        client_mask_of request.version_rolling_mask_present request.version_rolling_mask in
      let s' : Session P =
        if request.configure_version_rolling
        then record s { version_mask = bit_and client_mask pool.pool_version_mask }
        else s in
      let result : List (Bytes × RequestId P) =
        refuse_extensions request.configure_extensions
          (if request.configure_version_rolling then rolling_entries s'.version_mask else []) in
      (s', send_json (make_result P.double P.json request.id (P.json.object result)) ∷ [])

  -- A session authorized for an address with its script.
  unfoldable pub authorize : PoolContext P → Session P → Bytes → Bytes → Bytes → Session P
  authorize pool s address worker script = record s {
    coinbase2_cache = if same_script s.payout_script script then s.coinbase2_cache else none;
    address = some address;
    worker = some worker;
    payout_script = some script;
    authorized = true;
    worker_accounting = pool.attach_worker address worker;
  }

  unfoldable pub handle_authorize : PoolContext P → Session P → RequestId P → List Bytes → Outcome P
  handle_authorize pool s id params =
      let param = first_param params in
      let address = before_dot (sanitize param log_limit) in
      if length param == 0
      then ok (send_error P s id err_other)
      else elim (pool.validate_address address) [
        | none ↦ ok (s, result_sent P id false ∷ [])
        | some script ↦
            let worker = worker_of param in
            bind (send_difficulty_then_work P pool (authorize pool s address worker script))
              λ (s', events).
                ok (s', worker_attached address worker ∷ result_sent P id true ∷ events)
      ]

  -- A suggestion that is taken.
  unfoldable pub suggested :
      PoolContext P → Session P → Value P → Value P → Session P × List (Event P)
  suggested pool s clamped now_steady =
      let s' : Session P = record (begin_difficulty_change P s clamped) {
        shares_since_retarget = 0;
        last_retarget = now_steady;
      } in
      (s', if s'.subscribed then send_set_difficulty P s' else [])

  unfoldable pub suggestion :
      PoolContext P → Session P → Option (Value P) → Value P → Session P × List (Event P)
  unfolding suggested
  suggestion pool s none now_steady = (s, [])
  suggestion pool s (some difficulty) now_steady =
      elim (clamp_suggested_difficulty P.double difficulty pool.runtime_config.minimum_difficulty
        pool.runtime_config.maximum_difficulty) [
          | none ↦ (s, [])
          | some clamped ↦
              if P.double.same clamped s.difficulty
              then (s, [])
              else suggested pool s clamped now_steady
        ]

  unfoldable pub handle_suggest_difficulty :
      PoolContext P
      → Session P
      → Request (RequestId P) (Value P)
      → Value P
      → Session P × List (Event P)
  unfolding suggestion
  handle_suggest_difficulty pool s request now_steady =
      let (s', events) = suggestion pool s request.suggested_difficulty now_steady in
      (s', events ++ (result_sent P request.id true ∷ []))

  unfoldable pub dispatch :
      PoolContext P → Session P → Request (RequestId P) (Value P) → Value P → Outcome P
  dispatch pool s request now_steady =
      if same_bytes request.method (codes "mining.subscribe")
      then handle_subscribe pool s request.id request.params
      else if same_bytes request.method (codes "mining.authorize")
      then handle_authorize pool s request.id request.params
      else if same_bytes request.method (codes "mining.configure")
      then ok (handle_configure pool s request)
      else if same_bytes request.method (codes "mining.suggest_difficulty")
      then ok (handle_suggest_difficulty pool s request now_steady)
      else if same_bytes request.method (codes "mining.extranonce.subscribe")
      then ok (s, result_sent P request.id true ∷ [])
      else if not (P.json.is_null request.id)
      then ok (s, line_sent (make_error_line P.double P.json request.id err_other) ∷ [])
      else ok (s, [])
