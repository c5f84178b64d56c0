-- ===== src/Stratum/Session/Superseded.antt =====
-- stratum/session.cpp: what `send_notify` refuses to send, over the runs of a session.
use erikslund_solo_pool.Prelude.{
  ℕ, ◌≤◌, ◌<◌, max, List, [], ◌∷◌, ◌++◌, Bytes, Option, none, some, ◌≡◌, ◌≢◌, refl, Bool, true,
  false, not, ◌&&◌, leb, ◌==◌, arith, sym, ◌∙◌, ap, inl, inr, Bool-cases, Throws, ok, throw, bind,
  ok_inj,
}
use erikslund_solo_pool.Prelude.Int.{ℤ}
use erikslund_solo_pool.Stratum.Job.{Job}
use erikslund_solo_pool.Stratum.Job.Accept.{IsHash}
use erikslund_solo_pool.Stratum.Session.{
  Platform, PoolContext, Session, Event, Value, Outcome, LogicError, Coinbase2Cache,
}
use erikslund_solo_pool.Stratum.Session.Notify.{
  coinbase2_for, coinbase2_with, build_notify_line, notified, lines_of, is_ready, is_superseded,
  send_notify, maybe_retarget,
}
use erikslund_solo_pool.Stratum.Session.Submit.{to_validate}
use erikslund_solo_pool.Stratum.Session.Invariant.{Promise}
use erikslund_solo_pool.Stratum.Session.Safe.{IsSafe, send_notify-IsSafe}
use erikslund_solo_pool.Stratum.Session.Answers.{dispatch-IsSafe, maybe_retarget-IsSafe}
use erikslund_solo_pool.Stratum.Session.Judged.{IsBegun, begin_submit-IsBegun, settle_share_keeps}
use erikslund_solo_pool.Stratum.Session.Steps.{
  World, Step, dispatched, published, retargeted, refused_at_once, submitted, noted, settled, Run,
  here, next, opened,
}
use erikslund_solo_pool.Stratum.Session.Runs.{IsKept, Step-IsKept, Run-IsKept, opened-IsKept}

none-some : {A : Type 0} {a : A} → ◌≢◌ {A = Option A} none (some a)
none-some h = cc

nil-cons : {A : Type 0} {a : A} {l : List A} → ◌≢◌ {A = List A} [] (a ∷ l)
nil-cons h = cc

newer :
    (last sequence : ℕ)
    → sequence ≢ 0
    → (not (sequence == 0) && leb sequence last) ≡ false
    → last < sequence
newer last sequence stamped new = ground arith

module _ (P : Platform) where
  coinbase2_with_keeps :
      (payout_script : Option Bytes) (s : Session P) (job : Job (Value P))
      (after : Session P × Coinbase2Cache)
      → coinbase2_with P payout_script s job ≡ ok after
      → after.0.last_notified_publication_sequence ≡ s.last_notified_publication_sequence
  unfolding coinbase2_with
  coinbase2_with_keeps none s job after h = cc
  coinbase2_with_keeps (some script) s job after h =
      ap (λ (r : Session P × Coinbase2Cache). r.0.last_notified_publication_sequence)
        (sym (ok_inj h))

  notified_keeps :
      (s : Session P) (job : Job (Value P)) (clean : Bool)
      (m : Throws LogicError (Session P × Coinbase2Cache)) (after : Session P × Option Bytes)
      → ((found : Session P × Coinbase2Cache)
          → m ≡ ok found
          → found.0.last_notified_publication_sequence ≡ s.last_notified_publication_sequence)
      → (bind m λ (s', coinbase2). ok (notified P s' job clean coinbase2)) ≡ ok after
      → after.0.last_notified_publication_sequence ≡ s.last_notified_publication_sequence
  unfolding notified
  notified_keeps s job clean (throw e) after keeps h = cc
  notified_keeps s job clean (ok found) after keeps h =
      ap (λ (r : Session P × Option Bytes). r.0.last_notified_publication_sequence) (sym (ok_inj h))
      ∙ keeps found refl

  -- A line is built for no other highest sequence.
  build_notify_line-max :
      (s : Session P) (job : Job (Value P)) (clean : Bool) (s' : Session P) (line : Bytes)
      → build_notify_line P s job clean ≡ ok (s', some line)
      → s'.last_notified_publication_sequence
        ≡ max s.last_notified_publication_sequence job.publication_sequence
  unfolding build_notify_line coinbase2_for
  build_notify_line-max s job clean s' line h = elim (Bool-cases (is_ready P s)) [
    | inr out ↦ absurd (
        none-some
          (ap (λ (r : Session P × Option Bytes). r.1) (ok_inj (rw (build_notify_line, out) at h))))
    | inl ready ↦
        notified_keeps
          (record s {
            last_notified_publication_sequence =
                max s.last_notified_publication_sequence job.publication_sequence;
          })
          job clean _ (s', some line)
          (λ found e. coinbase2_with_keeps s.payout_script _ job found e)
          (rw (build_notify_line, ready) at h)
  ]

  sent_line :
      (m : Throws LogicError (Session P × Option Bytes)) (s' : Session P) (line : Event P)
      (events : List (Event P))
      → ◌≡◌ {A = Outcome P}
          (bind m λ (s'', built). ok (s'', lines_of P built))
          (ok (s', line ∷ events))
      → (built : Bytes) × (m ≡ ok (s', some built))
  unfolding lines_of
  sent_line (throw e) s' line events h = cc
  sent_line (ok (s'', none)) s' line events h = cc
  sent_line (ok (s'', some built)) s' line events h = (
    built,
    ap (λ (t : Session P). ok (t, some built))
        (ap (λ (r : Session P × List (Event P)). r.0) (ok_inj h)),
  )

  -- When a call of `send_notify` for a job that has a publication sequence sends a line, that sequence
  -- was above the last one that the session had recorded, and is the recorded one after the call.
  send_notify-is_superseded :
      (s : Session P) (job : Job (Value P)) (clean : Bool) (s' : Session P) (line : Event P)
      (events : List (Event P))
      → job.publication_sequence ≢ 0
      → send_notify P s job clean ≡ ok (s', line ∷ events)
      → (s.last_notified_publication_sequence < job.publication_sequence)
        × (s'.last_notified_publication_sequence ≡ job.publication_sequence)
  unfolding send_notify is_superseded
  send_notify-is_superseded s job clean s' line events stamped h =
      elim (Bool-cases (is_superseded P s job)) [
        | inl old ↦ absurd (
            nil-cons
              (ap (λ (r : Session P × List (Event P)). r.1) (ok_inj (rw (send_notify, old) at h))))
        | inr new ↦
            let (built, e) = sent_line _ s' line events (rw (send_notify, new) at h) in
            let top = build_notify_line-max s job clean s' built e in
            let above : s.last_notified_publication_sequence < job.publication_sequence =
              newer _ _ stamped new in
            (above, omega (arith, top, above))
      ]

module _ (P : Platform) (promise : Promise P) (extranonce1 : Bytes) (hash : IsHash P.sha256d) where
  -- The highest publication of which the session has a record.
  abbrev last : World P promise → ℕ
  last w = w.session.last_notified_publication_sequence

  safe_last :
      (s s' : Session P) (events : List (Event P)) (m : Outcome P)
      → m ≡ ok (s', events)
      → IsSafe P promise s m
      → s.last_notified_publication_sequence ≤ s'.last_notified_publication_sequence
  safe_last s s' events m e safe =
      let (calm, quiet) : IsSafe P promise s (ok (s', events)) = rw e at safe in calm.3

  -- The record of a world never goes back.
  Step_last :
      {w u : World P promise} {events : List (Event P)} (before : List (Event P))
      → Step P promise w u events
      → IsKept P promise extranonce1 w before
      → last w ≤ last u
  Step_last before (dispatched w pool request now s events faithful e) kept =
      safe_last w.session s events _ e
        (dispatch-IsSafe P promise pool w.session request now faithful kept.sound)
  Step_last before (published w job clean s events known e) kept =
      safe_last w.session s events _ e
        (send_notify-IsSafe P promise w.session job clean known kept.sound)
  Step_last before (retargeted w pool now) kept =
      safe_last w.session (maybe_retarget P pool w.session now).0
        (maybe_retarget P pool w.session now).1 _ refl
        (maybe_retarget-IsSafe P promise pool w.session now kept.sound)
  Step_last before (refused_at_once w pool id params s events faithful e) kept =
      let begun =
        begin_submit-IsBegun P promise extranonce1 pool w.session id params faithful kept.sound in
      (rw e at begun).3
  Step_last before (submitted w pool id params s snap faithful e) kept =
      let begun =
        begin_submit-IsBegun P promise extranonce1 pool w.session id params faithful kept.sound in
      let (calm, fair) : IsBegun P promise extranonce1 w.session (ok (to_validate s snap)) =
        rw e at begun in
      calm.3
  Step_last before (noted s first after snap settling now_unix) kept = omega arith
  Step_last before (settled s in_flight first after share now_wall now_steady) kept =
      omega (arith, settle_share_keeps P promise extranonce1 s share now_wall now_steady)

  Run_last :
      {w u : World P promise} {events : List (Event P)} (before : List (Event P))
      → IsKept P promise extranonce1 w before
      → Run P promise w u events
      → (all : List (Event P)) × IsKept P promise extranonce1 u all × (last w ≤ last u)
  Run_last before kept here = (before, kept, omega arith)
  Run_last before kept (next run step) =
      let (all, then, up) = Run_last before kept run in
      (
        _,
        Step-IsKept P promise extranonce1 hash all step then,
        omega (arith, up, Step_last all step then),
      )

  send_notify_refused :
      (s : Session P) (job : Job (Value P)) (clean : Bool)
      → job.publication_sequence ≢ 0
      → job.publication_sequence ≤ s.last_notified_publication_sequence
      → send_notify P s job clean ≡ ok (s, [])
  unfolding send_notify is_superseded
  send_notify_refused s job clean stamped old =
      let superseded : is_superseded P s job ≡ true = ground arith in
      rw (send_notify, superseded) refl

  -- Under the conditions of `Run-IsHonest`: once a call of `send_notify` has sent a published job that
  -- has a publication sequence, then, whatever steps the session makes after it, a call of `send_notify`
  -- for a job of that publication or of an earlier one sends nothing and changes nothing.
  pub Run-is_superseded :
      (pool : PoolContext P) (now_wall : ℤ) (now_steady : Value P) (w u : World P promise)
      (before later : List (Event P)) (job other : Job (Value P)) (clean clean' : Bool)
      (s : Session P) (line : Event P) (sent : List (Event P))
      → Run P promise (opened P promise pool extranonce1 now_wall now_steady) w before
      → promise.IsPublished job
      → job.publication_sequence ≢ 0
      → send_notify P w.session job clean ≡ ok (s, line ∷ sent)
      → Run P promise (record w { session = s }) u later
      → other.publication_sequence ≢ 0
      → other.publication_sequence ≤ job.publication_sequence
      → send_notify P u.session other clean' ≡ ok (u.session, [])
  Run-is_superseded pool now_wall now_steady w u before later job other clean clean' s line sent run
        known stamped e after stamped' old =
      let kept =
        Run-IsKept P promise extranonce1 hash
          (opened-IsKept P promise extranonce1 hash pool now_wall now_steady) run in
      let then =
        Step-IsKept P promise extranonce1 hash before
          (published w job clean s (line ∷ sent) known e) kept in
      let (all, kept', up) = Run_last (before ++ (line ∷ sent)) then after in
      let (above, top) = send_notify-is_superseded P w.session job clean s line sent stamped e in
      send_notify_refused u.session other clean' stamped' (omega (arith, up, top, old))
