-- ===== src/Stratum/Session/Invariant.antt =====
-- What holds of a session at all times: whom it pays, and what it has cached. The pool's part is given:
-- which jobs it publishes, no two of them with one name, and which script an address has.
use erikslund_solo_pool.Prelude.{
  Bool, true, false, Bytes, Option, none, some, ◌≡◌, refl, same_bytes, same_bytes-eq, Bool-cases,
  IsBytes, sym, ◌∙◌, inl, inr,
}
use erikslund_solo_pool.Util.Hex.{to_hex}
use erikslund_solo_pool.Stratum.Job.{Job}
use erikslund_solo_pool.Stratum.Job.Work.{build_coinbase2}
use erikslund_solo_pool.Stratum.Session.{Platform, PoolContext, Session, Value, Coinbase2Cache}
use erikslund_solo_pool.Stratum.Session.Notify.{cache_for}

-- What the pool promises of its jobs.
pub record Promise (P : Platform) : Type 1 where
  pub validate : Bytes → Option Bytes
  pub IsPublished : Job (Value P) → Type 0
  pub same_id :
      (job other : Job (Value P))
      → IsPublished job
      → IsPublished other
      → job.job_id ≡ other.job_id
      → job ≡ other
  pub target-IsBytes : (job : Job (Value P)) → IsPublished job → IsBytes job.network_target

module _ (P : Platform) (promise : Promise P) where
  -- The pool's answers at a time keep the promise.
  pub record IsFaithful (pool : PoolContext P) : Type 0 where
    pub validates : (address : Bytes) → pool.validate_address address ≡ promise.validate address
    pub current : (job : Job (Value P)) → pool.current_job ≡ some job → promise.IsPublished job
    pub recent :
        (job_id : Bytes) (job : Job (Value P))
        → pool.recent_job job_id ≡ some job
        → promise.IsPublished job

  -- A cache made of a job for a script.
  pub record IsCacheOf (cache : Coinbase2Cache) (script : Bytes) : Type 0 where
    pub job : Job (Value P)
    pub is_published : promise.IsPublished job
    pub has_job_id : cache.job_id ≡ job.job_id
    pub has_coinbase2 : cache.coinbase2 ≡ build_coinbase2 P.double job script
    pub has_hex : cache.coinbase2_hex ≡ to_hex cache.coinbase2

  abbrev pub CacheHolds : Option Coinbase2Cache → Bytes → Type 0
  CacheHolds none script = Unit
  CacheHolds (some cache) script = IsCacheOf cache script

  -- Nobody and nothing before the session is authorized, then an address that is valid with its script.
  abbrev pub PaysSomebody : Bool → Option Bytes → Option Bytes → Option Coinbase2Cache → Type 0
  PaysSomebody authorized address none cache = (authorized ≡ false) × (cache ≡ none)
  PaysSomebody authorized none (some script) cache = ⊥
  PaysSomebody authorized (some address) (some script) cache =
      (authorized ≡ true) × (promise.validate address ≡ some script) × CacheHolds cache script

  abbrev pub IsSound : Session P → Type 0
  IsSound s = PaysSomebody s.authorized s.address s.payout_script s.coinbase2_cache

  -- The cache for a job is that of the job, whether it was there or is made.
  pub cache_for-IsCacheOf :
      (cache : Option Coinbase2Cache) (job : Job (Value P)) (script : Bytes)
      → promise.IsPublished job
      → CacheHolds cache script
      → let found = cache_for P cache job script in
        IsCacheOf found script × (found.coinbase2 ≡ build_coinbase2 P.double job script)
  unfolding cache_for
  cache_for-IsCacheOf none job script published held = (
    record {
      job = job;
      is_published = published;
      has_job_id = refl;
      has_coinbase2 = refl;
      has_hex = refl;
    },
    refl,
  )
  cache_for-IsCacheOf (some cache) job script published held =
      elim (Bool-cases (same_bytes cache.job_id job.job_id)) [
        | inl same ↦
            let id : held.job.job_id ≡ job.job_id =
              sym held.has_job_id ∙ same_bytes-eq cache.job_id job.job_id same in
            let one = promise.same_id held.job job held.is_published published id in
            rw same (held, rw one at held.has_coinbase2)
        | inr other ↦ rw other (
          record {
            job = job;
            is_published = published;
            has_job_id = refl;
            has_coinbase2 = refl;
            has_hex = refl;
          },
          refl,
        )
      ]
