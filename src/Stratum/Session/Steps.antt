-- ===== src/Stratum/Session/Steps.antt =====
-- The steps of a session: any operations in any order, with submissions under way between their parts,
-- and with the pool's answers different at each step.
use erikslund_solo_pool.Prelude.{List, [], ◌∷◌, ◌++◌, Bytes, ◌≡◌, Bool, ok}
use erikslund_solo_pool.Prelude.Int.{ℤ}
use erikslund_solo_pool.Stratum.Message.{Request}
use erikslund_solo_pool.Stratum.Job.{Job}
use erikslund_solo_pool.Stratum.Session.{
  Platform, PoolContext, Session, Event, Value, RequestId, new_session,
}
use erikslund_solo_pool.Stratum.Session.Notify.{send_notify, maybe_retarget}
use erikslund_solo_pool.Stratum.Session.Handlers.{dispatch}
use erikslund_solo_pool.Stratum.Session.Submit.{
  Snapshot, replied, to_validate, begin_submit, Noted, note_share, settle_share,
}
use erikslund_solo_pool.Stratum.Session.Invariant.{Promise, IsFaithful}

module _ (P : Platform) (promise : Promise P) where
  -- A session, the submissions that are still to be validated, and the shares that the pool was told of
  -- and the session has still to count.
  pub record World : Type 0 where
    pub session : Session P
    pub in_flight : List (Snapshot P)
    pub settling : List (Noted P)

  -- What may happen next, and what it does outside.
  pub data Step : World → World → List (Event P) → Type 0 where
    dispatched :
        (w : World) (pool : PoolContext P) (request : Request (RequestId P) (Value P))
        (now : Value P) (s : Session P) (events : List (Event P))
        → IsFaithful P promise pool
        → dispatch P pool w.session request now ≡ ok (s, events)
        → Step w (record w { session = s }) events
    published :
        (w : World) (job : Job (Value P)) (clean : Bool) (s : Session P) (events : List (Event P))
        → promise.IsPublished job
        → send_notify P w.session job clean ≡ ok (s, events)
        → Step w (record w { session = s }) events
    retargeted :
        (w : World) (pool : PoolContext P) (now : Value P)
        → Step w
            (record w { session = (maybe_retarget P pool w.session now).0 })
            (maybe_retarget P pool w.session now).1
    refused_at_once :
        (w : World) (pool : PoolContext P) (id : RequestId P) (params : List Bytes) (s : Session P)
        (events : List (Event P))
        → IsFaithful P promise pool
        → begin_submit P pool w.session id params ≡ ok (replied s events)
        → Step w (record w { session = s }) events
    submitted :
        (w : World) (pool : PoolContext P) (id : RequestId P) (params : List Bytes) (s : Session P)
        (snap : Snapshot P)
        → IsFaithful P promise pool
        → begin_submit P pool w.session id params ≡ ok (to_validate s snap)
        → Step w (record { session = s; in_flight = snap ∷ w.in_flight; settling = w.settling }) []
    noted :
        (s : Session P) (before after : List (Snapshot P)) (snap : Snapshot P)
        (settling : List (Noted P)) (now_unix : ℤ)
        → Step
            (record { session = s; in_flight = before ++ (snap ∷ after); settling = settling })
            (record {
              session = s;
              in_flight = before ++ after;
              settling = (note_share P s snap now_unix).0 ∷ settling;
            })
            (note_share P s snap now_unix).1
    settled :
        (s : Session P) (in_flight : List (Snapshot P)) (before after : List (Noted P))
        (share : Noted P) (now_wall : ℤ) (now_steady : Value P)
        → Step
            (record { session = s; in_flight = in_flight; settling = before ++ (share ∷ after) })
            (record {
              session = (settle_share P s share now_wall now_steady).0;
              in_flight = in_flight;
              settling = before ++ after;
            })
            (settle_share P s share now_wall now_steady).1

  -- Any number of steps, with all that they did, in order.
  pub data Run (start : World) : World → List (Event P) → Type 0 where
    here : Run start start []
    next :
        {w u : World} {before events : List (Event P)}
        → Run start w before
        → Step w u events
        → Run start u (before ++ events)

  abbrev pub opened : PoolContext P → Bytes → ℤ → Value P → World
  opened pool extranonce1 now_wall now_steady = record {
    session = new_session P pool extranonce1 now_wall now_steady;
    in_flight = [];
    settling = [];
  }
