-- ===== src/Stratum/Session/Answers.antt =====
-- The handlers of the requests other than a submission are safe, and so is a change of the difficulty.
use erikslund_solo_pool.Prelude.{
  Bool, true, not, ◌&&◌, ◌||◌, List, [], ◌∷◌, ◌++◌, Bytes, Option, none, some, refl, ok, throw,
  bind, All, All-append, same_bytes, same_bytes-eq, Bool-cases, Option-cases, if◌then◌else◌, arith,
  sym, ◌∙◌, inl, inr, length, ◌==◌, codes,
}
use erikslund_solo_pool.Core.Logging.{sanitize, log_limit}
use erikslund_solo_pool.Stratum.Message.{Request, StratumError, is_some, err_other}
use erikslund_solo_pool.Stratum.Message.Lines.{make_error_line}
use erikslund_solo_pool.Stratum.Vardiff.{clamp_suggested_difficulty}
use erikslund_solo_pool.Stratum.Session.{
  Platform, PoolContext, Session, Event, line_sent, Outcome, Value, RequestId, Coinbase2Cache,
  send_error, is_misbehaviour, begin_difficulty_change, result_sent,
}
use erikslund_solo_pool.Stratum.Session.Notify.{
  maybe_retarget, retarget, next_difficulty, send_set_difficulty,
}
use erikslund_solo_pool.Stratum.Session.Handlers.{
  before_dot, worker_of, first_param, same_script, send_json, subscribe, handle_subscribe,
  handle_configure, authorize, handle_authorize, suggestion, suggested, handle_suggest_difficulty,
  dispatch,
}
use erikslund_solo_pool.Stratum.Session.Invariant.{
  Promise, IsFaithful, CacheHolds, PaysSomebody, IsSound,
}
use erikslund_solo_pool.Stratum.Session.Safe.{
  IsQuiet, IsCalm, IsSafe, send_difficulty_then_work-IsSafe,
}

module _ (P : Platform) (promise : Promise P) where
  -- What an operation does behind a change that is calm, with more events before its own.
  IsSafe_after :
      (s s' : Session P) (m : Outcome P) (first : List (Event P))
      → IsCalm P promise s s'
      → All (IsQuiet P) first
      → IsSafe P promise s' m
      → IsSafe P promise s (bind m λ (s'', events). ok (s'', first ++ events))
  IsSafe_after s s' (throw e) first calm quiet safe = absurd safe
  IsSafe_after s s' (ok (s'', events)) first calm quiet ((e, a, r, n, sound), rest) = (
    (e ∙ calm.0, a ∙ calm.1, r ∙ calm.2, omega (arith, n, calm.3), sound),
    All-append (IsQuiet P) first events quiet rest,
  )

  pub send_error-IsSafe :
      (s : Session P) (id : RequestId P) (error : StratumError)
      → IsSound P promise s
      → IsSafe P promise s (ok (send_error P s id error))
  unfolding send_error
  send_error-IsSafe s id error sound = elim (Bool-cases (is_misbehaviour P error)) [
    | inl e ↦ rw e ((refl, refl, refl, omega arith, sound), (tt, tt))
    | inr e ↦ rw e ((refl, refl, refl, omega arith, sound), (tt, tt))
  ]

  pub handle_subscribe-IsSafe :
      (pool : PoolContext P) (s : Session P) (id : RequestId P) (params : List Bytes)
      → IsFaithful P promise pool
      → IsSound P promise s
      → IsSafe P promise s (handle_subscribe P pool s id params)
  unfolding handle_subscribe subscribe send_json is_some
  handle_subscribe-IsSafe pool s id params faithful sound =
      elim (Bool-cases (s.authorized && is_some s.payout_script)) [
        | inl e ↦ rw e (
            IsSafe_after s (subscribe P s params) _ (_ ∷ []) (refl, refl, refl, omega arith, sound)
              (tt, tt) (send_difficulty_then_work-IsSafe P promise pool _ faithful sound))
        | inr e ↦ rw e ((refl, refl, refl, omega arith, sound), (tt, tt))
      ]

  pub handle_configure-IsSafe :
      (pool : PoolContext P) (s : Session P) (request : Request (RequestId P) (Value P))
      → IsSound P promise s
      → IsSafe P promise s (ok (handle_configure P pool s request))
  unfolding handle_configure send_json
  handle_configure-IsSafe pool s request sound =
      elim (Bool-cases request.configure_version_rolling) [
        | inl e ↦ rw e ((refl, refl, refl, omega arith, sound), (tt, tt))
        | inr e ↦ rw e ((refl, refl, refl, omega arith, sound), (tt, tt))
      ]

  -- The cache that is left when a session is authorized.
  cache_left :
      (authorized : Bool) (address payout_script : Option Bytes) (cache : Option Coinbase2Cache)
      (script : Bytes)
      → PaysSomebody P promise authorized address payout_script cache
      → CacheHolds P promise (if same_script payout_script script then cache else none) script
  unfolding same_script
  cache_left authorized address none cache script pays = tt
  cache_left authorized none (some old) cache script pays = absurd pays
  cache_left authorized (some a) (some old) cache script (now, valid, held) =
      elim (Bool-cases (same_bytes old script)) [
        | inl e ↦ rw e (rw (same_bytes-eq old script e) at held)
        | inr e ↦ rw e tt
      ]

  pub handle_authorize-IsSafe :
      (pool : PoolContext P) (s : Session P) (id : RequestId P) (params : List Bytes)
      → IsFaithful P promise pool
      → IsSound P promise s
      → IsSafe P promise s (handle_authorize P pool s id params)
  unfolding handle_authorize authorize
  handle_authorize-IsSafe pool s id params faithful sound =
      let address = before_dot (sanitize (first_param params) log_limit) in
      elim (Bool-cases (length (first_param params) == 0)) [
        | inl e ↦ rw e (send_error-IsSafe s id err_other sound)
        | inr e ↦ elim (Option-cases (pool.validate_address address)) [
          | inl bad ↦ rw (e, bad) ((refl, refl, refl, omega arith, sound), (tt, tt))
          | inr (script, valid) ↦
              let pays =
                cache_left s.authorized s.address s.payout_script s.coinbase2_cache script sound in
              let sound' : IsSound P promise
                  (authorize P pool s address (worker_of (first_param params)) script) =
                (refl, sym (faithful.validates address) ∙ valid, pays) in
              rw (e, valid)
                (IsSafe_after s (authorize P pool s address (worker_of (first_param params)) script)
                  _ (_ ∷ _ ∷ []) (refl, refl, refl, omega arith, sound') (tt, (tt, tt))
                  (send_difficulty_then_work-IsSafe P promise pool _ faithful sound'))
        ]
      ]

  retarget-IsSafe :
      (pool : PoolContext P) (s : Session P) (now : Value P)
      → IsSound P promise s
      → IsSafe P promise s (ok (retarget P pool s now))
  unfolding retarget begin_difficulty_change send_set_difficulty
  retarget-IsSafe pool s now sound =
      elim (Bool-cases (P.double.same (next_difficulty P pool s now) s.difficulty)) [
        | inl e ↦ rw e ((refl, refl, refl, omega arith, sound), tt)
        | inr e ↦ rw e ((refl, refl, refl, omega arith, sound), (tt, tt))
      ]

  pub maybe_retarget-IsSafe :
      (pool : PoolContext P) (s : Session P) (now : Value P)
      → IsSound P promise s
      → IsSafe P promise s (ok (maybe_retarget P pool s now))
  unfolding maybe_retarget
  maybe_retarget-IsSafe pool s now sound =
      let config = pool.runtime_config in
      elim (Bool-cases (not config.variable_difficulty || not s.authorized)) [
        | inl e ↦ rw e ((refl, refl, refl, omega arith, sound), tt)
        | inr e ↦
            elim (Bool-cases (
              P.double.less (P.double.sub now s.last_retarget)
                (P.double.of_nat config.vardiff_retarget_seconds))) [
                  | inl early ↦ rw (e, early) ((refl, refl, refl, omega arith, sound), tt)
                  | inr due ↦ rw (e, due) (retarget-IsSafe pool s now sound)
                ]
      ]

  suggestion-IsSafe :
      (pool : PoolContext P) (s : Session P) (suggested_difficulty : Option (Value P))
      (now : Value P)
      → IsSound P promise s
      → IsSafe P promise s (ok (suggestion P pool s suggested_difficulty now))
  unfolding suggestion suggested begin_difficulty_change send_set_difficulty
  suggestion-IsSafe pool s none now sound = ((refl, refl, refl, omega arith, sound), tt)
  suggestion-IsSafe pool s (some difficulty) now sound =
      elim (Option-cases (
        clamp_suggested_difficulty P.double difficulty pool.runtime_config.minimum_difficulty
          pool.runtime_config.maximum_difficulty)) [
            | inl e ↦ rw (suggestion, e) ((refl, refl, refl, omega arith, sound), tt)
            | inr (clamped, e) ↦ elim (Bool-cases (P.double.same clamped s.difficulty)) [
              | inl same ↦ rw (suggestion, e, same) ((refl, refl, refl, omega arith, sound), tt)
              | inr other ↦ elim (Bool-cases s.subscribed) [
                | inl on ↦
                    rw (suggestion, e, other, on) ((refl, refl, refl, omega arith, sound), (tt, tt))
                | inr off ↦
                    rw (suggestion, e, other, off) ((refl, refl, refl, omega arith, sound), tt)
              ]
            ]
          ]

  handle_suggest_difficulty-IsSafe :
      (pool : PoolContext P) (s : Session P) (request : Request (RequestId P) (Value P))
      (now : Value P)
      → IsSound P promise s
      → IsSafe P promise s (ok (handle_suggest_difficulty P pool s request now))
  unfolding handle_suggest_difficulty
  handle_suggest_difficulty-IsSafe pool s request now sound =
      let (calm, quiet) = suggestion-IsSafe pool s request.suggested_difficulty now sound in
      (
        calm,
        All-append (IsQuiet P) (suggestion P pool s request.suggested_difficulty now).1 _ quiet
            (tt, tt),
      )

  -- The requests that are left.
  others :
      (s : Session P) (request : Request (RequestId P) (Value P))
      → IsSound P promise s
      → IsSafe P promise s (
          if same_bytes request.method (codes "mining.extranonce.subscribe")
          then ok (s, result_sent P request.id true ∷ [])
          else if not (P.json.is_null request.id)
          then ok (s, line_sent (make_error_line P.double P.json request.id err_other) ∷ [])
          else ok (s, []))
  others s request sound =
      elim (Bool-cases (same_bytes request.method (codes "mining.extranonce.subscribe"))) [
        | inl a ↦ rw a ((refl, refl, refl, omega arith, sound), (tt, tt))
        | inr a ↦ elim (Bool-cases (P.json.is_null request.id)) [
          | inl b ↦ rw (a, b) ((refl, refl, refl, omega arith, sound), tt)
          | inr b ↦ rw (a, b) ((refl, refl, refl, omega arith, sound), (tt, tt))
        ]
      ]

  pub dispatch-IsSafe :
      (pool : PoolContext P) (s : Session P) (request : Request (RequestId P) (Value P))
      (now : Value P)
      → IsFaithful P promise pool
      → IsSound P promise s
      → IsSafe P promise s (dispatch P pool s request now)
  unfolding dispatch
  dispatch-IsSafe pool s request now faithful sound =
      elim (Bool-cases (same_bytes request.method (codes "mining.subscribe"))) [
        | inl a ↦ rw a (handle_subscribe-IsSafe pool s request.id request.params faithful sound)
        | inr a ↦ elim (Bool-cases (same_bytes request.method (codes "mining.authorize"))) [
          | inl b ↦
              rw (a, b) (handle_authorize-IsSafe pool s request.id request.params faithful sound)
          | inr b ↦ elim (Bool-cases (same_bytes request.method (codes "mining.configure"))) [
            | inl c ↦ rw (a, b, c) (handle_configure-IsSafe pool s request sound)
            | inr c ↦
                elim (Bool-cases (same_bytes request.method (codes "mining.suggest_difficulty"))) [
                  | inl d ↦
                      rw (a, b, c, d) (handle_suggest_difficulty-IsSafe pool s request now sound)
                  | inr d ↦ rw (a, b, c, d) (others s request sound)
                ]
          ]
        ]
      ]
