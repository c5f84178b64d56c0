-- ===== src/Stratum/Session/Replies.antt =====
-- A submission is answered by one line.
use erikslund_solo_pool.Prelude.{
  ◌+◌, List, [], ◌∷◌, ◌++◌, Bytes, Option, none, some, ◌≡◌, refl, Bool, true, false, not, arith,
  sym, ◌∙◌, ap, inl, inr, Option-cases, Throws-cases, Throws, ok, throw, bind, ok_inj, split,
}
use erikslund_solo_pool.Prelude.Int.{ℤ}
use erikslund_solo_pool.Stratum.Message.{StratumError}
use erikslund_solo_pool.Stratum.Job.{Job}
use erikslund_solo_pool.Stratum.Job.Share.{RejectClass}
use erikslund_solo_pool.Stratum.Seen.{SeenShares}
use erikslund_solo_pool.Stratum.Session.{
  Platform, PoolContext, Session, Event, line_sent, worker_attached, share_rejected, share_accepted,
  block_found, Value, RequestId, LogicError, Coinbase2Cache, send_error, is_misbehaviour,
  reject_share,
}
use erikslund_solo_pool.Stratum.Session.Notify.{coinbase2_for}
use erikslund_solo_pool.Stratum.Session.Submit.{
  Fields, Snapshot, Begun, replied, to_validate, is_oversize, fields_of, refused, refuse_share,
  found_events, begin_remembered, begin_share, submit_fields, begin_submit, judge, accept, Noted,
  share_taken, turned_down, note_share, settle_share, finish_submit, finish_begun, handle_submit,
}
use erikslund_solo_pool.Stratum.Session.Honest.{line_count}

module _ (P : Platform) where
  -- The first part replies once or not at all.
  abbrev IsOnce : Throws LogicError (Begun P) → Type 0
  IsOnce (throw e) = Unit
  IsOnce (ok (replied s events)) = line_count P events ≡ 1
  IsOnce (ok (to_validate s snap)) = Unit

  send_error_once :
      (s : Session P) (id : RequestId P) (error : StratumError)
      → line_count P (send_error P s id error).1 ≡ 1
  unfolding send_error line_count
  send_error_once s id error =
      split (λ (r : Session P × List (Event P)). line_count P r.1 ≡ 1) (is_misbehaviour P error)
        (λ _. refl) (λ _. refl)

  reject_share_once :
      (s : Session P) (id : RequestId P) (accounting : P.Handle) (address worker : Bytes)
      (class : RejectClass) (error : StratumError)
      → line_count P (reject_share P s id accounting address worker class error).1 ≡ 1
  unfolding reject_share line_count
  reject_share_once s id accounting address worker class error = send_error_once _ id error

  taken-IsOnce :
      (m : Throws LogicError (Session P × Coinbase2Cache))
      (snap : Session P → Coinbase2Cache → Snapshot P)
      → IsOnce (bind m λ (s', coinbase2). ok (to_validate s' (snap s' coinbase2)))
  taken-IsOnce (throw e) snap = tt
  taken-IsOnce (ok after) snap = tt

  begin_remembered-IsOnce :
      (s : Session P) (id : RequestId P) (fields : Fields) (job : Job (Value P))
      (remembered : SeenShares × Bool)
      → IsOnce (begin_remembered P s id fields job remembered)
  unfolding begin_remembered refuse_share refused
  begin_remembered-IsOnce s id fields job (seen, false) = reject_share_once _ id _ _ _ _ _
  begin_remembered-IsOnce s id fields job (seen, true) =
      taken-IsOnce (coinbase2_for P (record s { seen = seen }) job) _

  begin_share-IsOnce :
      (pool : PoolContext P) (s : Session P) (id : RequestId P) (fields : Fields)
      (job : Job (Value P))
      → IsOnce (begin_share P pool s id fields job)
  unfolding begin_share refuse_share refused
  begin_share-IsOnce pool s id fields job =
      split IsOnce (is_oversize pool.extranonce2_size fields)
        (λ _. reject_share_once s id _ _ _ _ _) λ _. begin_remembered-IsOnce s id fields job _

  submit_fields-IsOnce :
      (pool : PoolContext P) (s : Session P) (id : RequestId P) (fields : Option Fields)
      → IsOnce (submit_fields P pool s id fields)
  unfolding submit_fields refuse_share refused
  submit_fields-IsOnce pool s id none = send_error_once s id _
  submit_fields-IsOnce pool s id (some fields) =
      elim (Option-cases (pool.recent_job fields.job_id)) [
        | inl e ↦ rw (submit_fields, e) (reject_share_once s id _ _ _ _ _)
        | inr (job, e) ↦ rw (submit_fields, e) (begin_share-IsOnce pool s id fields job)
      ]

  begin_submit-IsOnce :
      (pool : PoolContext P) (s : Session P) (id : RequestId P) (params : List Bytes)
      → IsOnce (begin_submit P pool s id params)
  unfolding begin_submit refused
  begin_submit-IsOnce pool s id params =
      split IsOnce (not s.authorized) (λ _. send_error_once s id _)
        λ _.
          split IsOnce (not s.subscribed) (λ _. send_error_once s id _)
            λ _. submit_fields-IsOnce pool s id (fields_of params)

  line_count-append :
      (xs ys : List (Event P)) → line_count P (xs ++ ys) ≡ line_count P xs + line_count P ys
  unfolding line_count
  line_count-append [] ys = omega arith
  line_count-append (line_sent l ∷ xs) ys = omega (arith, line_count-append xs ys)
  line_count-append (worker_attached a w ∷ xs) ys = line_count-append xs ys
  line_count-append (share_rejected h a w c ∷ xs) ys = line_count-append xs ys
  line_count-append (share_accepted h a w c d ∷ xs) ys = line_count-append xs ys
  line_count-append (block_found a w j r ∷ xs) ys = line_count-append xs ys

  found_none :
      (is_block : Bool) (found : Event P) (rest : List (Event P))
      → line_count P (found ∷ []) ≡ 0
      → line_count P rest ≡ 0
      → line_count P (found_events P is_block found ++ rest) ≡ 0
  unfolding found_events
  found_none true found rest quiet silent =
      omega (arith, line_count-append (found ∷ []) rest, quiet, silent)
  found_none false found rest quiet silent = silent

  -- The pool is told of a share without a line, and the share is settled with one.
  note_share_none :
      (s : Session P) (snap : Snapshot P) (now_unix : ℤ)
      → line_count P (note_share P s snap now_unix).1 ≡ 0
  unfolding note_share accept line_count
  note_share_none s snap now_unix = elim (Throws-cases (judge P s snap now_unix)) [
    | inl (result, e) ↦ rw (note_share, e) (found_none result.is_block _ _ refl refl)
    | inr (rejection, e) ↦ rw (note_share, e) refl
  ]

  settle_once :
      (s : Session P) (noted : Noted P) (now_wall : ℤ) (now_steady : Value P)
      → line_count P (settle_share P s noted now_wall now_steady).1 ≡ 1
  unfolding settle_share line_count
  settle_once s (share_taken id credit difficulty) now_wall now_steady = refl
  settle_once s (turned_down id reason) now_wall now_steady = send_error_once _ id _

  finish_submit_once :
      (s : Session P) (snap : Snapshot P) (now_unix now_wall : ℤ) (now_steady : Value P)
      → line_count P (finish_submit P s snap now_unix now_wall now_steady).1 ≡ 1
  unfolding finish_submit
  finish_submit_once s snap now_unix now_wall now_steady =
      let (noted, notes) = note_share P s snap now_unix in
      omega (
        arith,
        line_count-append notes (settle_share P s noted now_wall now_steady).1,
        note_share_none s snap now_unix,
        settle_once s noted now_wall now_steady,
      )

  finish_begun_once :
      (m : Throws LogicError (Begun P)) (now_unix now_wall : ℤ) (now_steady : Value P)
      (after : Session P × List (Event P))
      → IsOnce m
      → (bind m λ begun. finish_begun P begun now_unix now_wall now_steady) ≡ ok after
      → line_count P after.1 ≡ 1
  unfolding finish_begun
  finish_begun_once (throw e) now_unix now_wall now_steady after once h = cc
  finish_begun_once (ok (replied s events)) now_unix now_wall now_steady after once h =
      ap (λ (r : Session P × List (Event P)). line_count P r.1) (sym (ok_inj h)) ∙ once
  finish_begun_once (ok (to_validate s snap)) now_unix now_wall now_steady after once h =
      ap (λ (r : Session P × List (Event P)). line_count P r.1) (sym (ok_inj h))
      ∙ finish_submit_once s snap now_unix now_wall now_steady

  -- A submission that does not throw is answered by exactly one line, on every path.
  pub handle_submit-line_count :
      (pool : PoolContext P) (s : Session P) (id : RequestId P) (params : List Bytes)
      (now_unix now_wall : ℤ) (now_steady : Value P) (after : Session P × List (Event P))
      → handle_submit P pool s id params now_unix now_wall now_steady ≡ ok after
      → line_count P after.1 ≡ 1
  unfolding handle_submit
  handle_submit-line_count pool s id params now_unix now_wall now_steady after h =
      finish_begun_once (begin_submit P pool s id params) now_unix now_wall now_steady after
        (begin_submit-IsOnce pool s id params) h
