-- ===== src/Tests/Session.antt =====
-- stratum/: a session that authorizes, subscribes and submits a share. The doubles are numbers, the
-- hash is the first byte, and the JSON values are texts.
use erikslund_solo_pool.Prelude.{
  ℕ, ◌+◌, ◌&&◌, not, Bool, true, false, List, [], ◌∷◌, ◌≡◌, refl, sym, ◌∙◌, Bytes, Option, none,
  some, Throws, ok, throw, All, codes, length, ◌==◌, if◌then◌else◌, some_inj, same_bytes, ltb,
}
use erikslund_solo_pool.Core.Logging.{sanitize}
use erikslund_solo_pool.Stratum.Seen.{remember, contains}
use erikslund_solo_pool.Prelude.Int.{pos}
use erikslund_solo_pool.Stratum.Json.{Json}
use erikslund_solo_pool.Stratum.Message.{Request}
use erikslund_solo_pool.Stratum.Session.{
  Platform, PoolContext, Session, Event, Outcome, LogicError, new_session,
}
use erikslund_solo_pool.Stratum.Session.Handlers.{
  dispatch, handle_subscribe, handle_authorize, first_param, before_dot, authorize,
}
use erikslund_solo_pool.Stratum.Session.Notify.{send_difficulty_then_work, coinbase2_for}
use erikslund_solo_pool.Stratum.Session.Submit.{
  Snapshot, Begun, replied, to_validate, begin_submit, fields_of, is_oversize, accept_difficulty,
  credited, note_share, finish_begun, handle_submit, handle_line,
}
use erikslund_solo_pool.Stratum.Session.Invariant.{Promise, IsFaithful}
use erikslund_solo_pool.Stratum.Session.Honest.{
  IsHonest, accepted_count, rejected_count, taken_count, turned_down_count, line_count,
}
use erikslund_solo_pool.Stratum.Session.Steps.{
  World, dispatched, submitted, noted, settled, Run, here, next, opened,
}
use erikslund_solo_pool.Stratum.Session.Runs.{Run-IsHonest, Run-accepted_count, handle_line-ok}
use erikslund_solo_pool.Stratum.Session.Replies.{handle_submit-line_count}
use erikslund_solo_pool.Stratum.Session.Credit.{credited-accept_difficulty}
use erikslund_solo_pool.Tests.Stratum.{
  numbers-IsDouble, numbers, first_byte, first_byte-IsHash, zeros-IsBytes, job,
}

abbrev texts : Json ℕ
texts = record {
  Value = Bytes;
  null = codes "null";
  boolean = λ b. codes "b";
  number = λ n. n ∷ [];
  string = λ s. s;
  array = λ l. codes "a";
  object = λ l. codes "o";
  is_null = λ v. false;
  as_number = λ v. none;
  as_string = λ v. some v;
  as_array = λ v. none;
  is_object = λ v. false;
  at = λ v key. none;
  read_json = λ line. none;
  read_request =
      λ line. some record { id = codes "1"; method = some line; params = some (codes "a.w" ∷ []) };
  write_json = λ v. some v;
  from_chars = λ text. none;
  is_whole = λ n. true;
}

abbrev pub platform : Platform
platform = record {
  double = numbers;
  json = texts;
  sha256d = first_byte;
  sha256d64 = first_byte;
  Handle = Bytes;
  no_handle = [];
}

abbrev pub script_for : Bytes → Option Bytes
script_for address = if length address == 0 then none else some (0x52 ∷ [])

abbrev promise : Promise platform
promise = record {
  validate = script_for;
  IsPublished = λ published. published ≡ job;
  same_id = λ published other e e' same. e ∙ sym e';
  target-IsBytes = λ published e. rw e (zeros-IsBytes 32);
}

abbrev pub pool : PoolContext platform
pool = record {
  extranonce2_size = 2;
  runtime_config = record {
    initial_difficulty = 3;
    minimum_difficulty = 1;
    maximum_difficulty = 0;
    variable_difficulty = true;
    vardiff_target_shares_per_minute = 10;
    vardiff_retarget_seconds = 30;
  };
  validate_address = script_for;
  current_job = none;
  recent_job = λ job_id. some job;
  attach_worker = λ address worker. address;
  pool_version_mask = 0x1fffe000;
}

pool-IsFaithful : IsFaithful platform promise pool
pool-IsFaithful = record {
  validates = λ address. refl;
  current = λ published e. cc;
  recent = λ job_id published e. some_inj (sym e);
}

abbrev pub fresh : Session platform
fresh = new_session platform pool (7 ∷ []) (pos 1700000000) 100

abbrev pub request : Bytes → List Bytes → Request Bytes ℕ
request method params = record {
  id = codes "1";
  method = method;
  params = params;
  configure_extensions = [];
  configure_version_rolling = false;
  version_rolling_mask_present = false;
  version_rolling_mask = none;
  suggested_difficulty = none;
}

-- What an operation leaves, when it throws nothing.
abbrev pub after : Outcome platform → Session platform × List (Event platform)
after (ok result) = result
after (throw e) = (fresh, [])

authorizing : Outcome platform
authorizing =
    dispatch platform pool fresh (request (codes "mining.authorize") (codes "a.w" ∷ [])) 100

subscribing : Outcome platform
unfolding authorizing
subscribing =
    dispatch platform pool (after authorizing).0
      (request (codes "mining.subscribe") (codes "m" ∷ [])) 100

submitting : Throws LogicError (Begun platform)
unfolding subscribing
submitting =
    begin_submit platform pool (after subscribing).0 (codes "2")
      (codes "a" ∷ codes "1" ∷ codes "01Ff" ∷ codes "6553f101" ∷ codes "7" ∷ [])

abbrev begun_session : Begun platform → Session platform
begun_session (replied s events) = s
begun_session (to_validate s snap) = s

is_validated : Throws LogicError (Begun platform) → Bool
is_validated (throw e) = false
is_validated (ok (replied s events)) = false
is_validated (ok (to_validate s snap)) = true

submitting_validated : is_validated submitting ≡ true
unfolding is_validated submitting subscribing authorizing begin_submit dispatch same_bytes
    handle_subscribe handle_authorize first_param before_dot sanitize send_difficulty_then_work
    authorize fields_of is_oversize remember contains new_session coinbase2_for
submitting_validated = refl

validated :
    (m : Throws LogicError (Begun platform))
    → is_validated m ≡ true
    → (s : Session platform) × (snap : Snapshot platform) × (m ≡ ok (to_validate s snap))
unfolding is_validated
validated (throw e) h = cc
validated (ok (replied s events)) h = cc
validated (ok (to_validate s snap)) h = (s, snap, refl)

abbrev pub returns : Outcome platform → Bool
returns (ok result) = true
returns (throw e) = false

pub after_ok : (m : Outcome platform) → returns m ≡ true → m ≡ ok (after m)
after_ok (ok result) h = refl
after_ok (throw e) h = cc

authorizing-returns : returns authorizing ≡ true
unfolding authorizing dispatch same_bytes handle_authorize first_param before_dot sanitize
    send_difficulty_then_work
authorizing-returns = refl

subscribing-returns : returns subscribing ≡ true
unfolding subscribing authorizing dispatch same_bytes handle_subscribe handle_authorize first_param
    before_dot sanitize send_difficulty_then_work authorize new_session
subscribing-returns = refl

abbrev start : World platform promise
start = opened platform promise pool (7 ∷ []) (pos 1700000000) 100

-- The run: authorize, subscribe, and the three parts of a submission.
a_run :
    (w : World platform promise) × (events : List (Event platform)) × Run platform promise start w
      events
unfolding authorizing subscribing submitting
a_run =
    let (s, snap, e) = validated submitting submitting_validated in
    (
      _,
      _,
      next
          (next
            (next
              (next
                (next here (
                  dispatched start pool (request (codes "mining.authorize") (codes "a.w" ∷ [])) 100
                    _ _ pool-IsFaithful (after_ok authorizing authorizing-returns)))
                (dispatched _ pool (request (codes "mining.subscribe") (codes "m" ∷ [])) 100 _ _
                  pool-IsFaithful (after_ok subscribing subscribing-returns)))
              (submitted _ pool (codes "2")
                (codes "a" ∷ codes "1" ∷ codes "01Ff" ∷ codes "6553f101" ∷ codes "7" ∷ []) s snap
                pool-IsFaithful e))
            (noted s [] [] snap [] (pos 1700000100)))
          (settled s [] [] [] (note_share platform s snap (pos 1700000100)).0 (pos 1700000100) 130),
    )

Run-IsHonest_example : All (IsHonest platform promise (7 ∷ [])) a_run.1
Run-IsHonest_example =
    Run-IsHonest platform promise (7 ∷ []) first_byte-IsHash pool (pos 1700000000) 100 a_run.0
      a_run.1 a_run.2

Run-accepted_count_example :
    (a_run.0.session.shares_accepted + taken_count platform a_run.0.settling
      ≡ accepted_count platform a_run.1)
    × (a_run.0.session.shares_rejected + turned_down_count platform a_run.0.settling
        ≡ rejected_count platform a_run.1)
Run-accepted_count_example =
    Run-accepted_count platform promise (7 ∷ []) first_byte-IsHash pool (pos 1700000000) 100 a_run.0
      a_run.1 a_run.2

handle_line-ok_example :
    (result : Session platform × List (Event platform)) × (handle_line platform pool a_run.0.session
        (codes "mining.submit")
        (pos 1700000100)
        (pos 1700000100)
        130
      ≡ ok result)
handle_line-ok_example =
    handle_line-ok platform promise (7 ∷ []) first_byte-IsHash pool (pos 1700000000) 100 a_run.0
      a_run.1 pool (codes "mining.submit") (pos 1700000100) (pos 1700000100) 130 a_run.2
      pool-IsFaithful

-- A session with a cache of nothing, and a share whose session has a change pending.
abbrev two_difficulties : Snapshot platform
two_difficulties = record {
  id = codes "2";
  job = job;
  fields = record {
    job_id = codes "1";
    extranonce2 = codes "01Ff";
    ntime = codes "6553f101";
    nonce = codes "7";
    version_bits = none;
  };
  coinbase2 = record { job_id = codes "1"; coinbase2 = []; coinbase2_hex = [] };
  accounting = codes "a";
  address = codes "a";
  worker = codes "w";
  snap_difficulty = 8;
  snap_previous = 4;
  snap_pending = true;
  snap_version_mask = 0;
}

required : ltb 5 (accept_difficulty platform two_difficulties) ≡ false
unfolding accept_difficulty
required = refl

credited-accept_difficulty_example :
    (ltb (credited platform two_difficulties 5) (accept_difficulty platform two_difficulties)
      ≡ false)
    × (ltb 5 (credited platform two_difficulties 5) ≡ false)
    × ((not (ltb 5 8) && ltb (credited platform two_difficulties 5) 8) ≡ false)
    × ((true && not (ltb 5 4) && ltb (credited platform two_difficulties 5) 4) ≡ false)
credited-accept_difficulty_example =
    credited-accept_difficulty platform numbers-IsDouble two_difficulties 5 required

-- The whole submission.
submission : Outcome platform
unfolding subscribing
submission =
    handle_submit platform pool (after subscribing).0 (codes "2")
      (codes "a" ∷ codes "1" ∷ codes "01Ff" ∷ codes "6553f101" ∷ codes "7" ∷ []) (pos 1700000100)
      (pos 1700000100) 130

submission-returns : returns submission ≡ true
unfolding submission subscribing authorizing handle_submit finish_begun begin_submit dispatch
    same_bytes handle_subscribe handle_authorize first_param before_dot sanitize
    send_difficulty_then_work authorize fields_of is_oversize remember contains new_session
    coinbase2_for
submission-returns = refl

handle_submit-line_count_example : line_count platform (after submission).1 ≡ 1
unfolding submission
handle_submit-line_count_example =
    handle_submit-line_count platform pool (after subscribing).0 (codes "2")
      (codes "a" ∷ codes "1" ∷ codes "01Ff" ∷ codes "6553f101" ∷ codes "7" ∷ []) (pos 1700000100)
      (pos 1700000100) 130 (after submission) (after_ok submission submission-returns)
