-- ===== src/Stratum/Session/Status.antt =====
-- mining/client.hpp and stratum/session.cpp: what a session shows of itself. A steady clock does not run
-- backwards, so that the seconds since the connection are not negative.
use erikslund_solo_pool.Prelude.{ℕ, Bool, ◌&&◌, List, [], ◌∷◌, Bytes, if◌then◌else◌}
use erikslund_solo_pool.Prelude.Int.{ℤ}
use erikslund_solo_pool.Stats.Hashrate.{snapshot_rates}
use erikslund_solo_pool.Stratum.Message.{value_or, is_some}
use erikslund_solo_pool.Stratum.Session.{Platform, Session, Value}

module _ (P : Platform) where
  pub record ClientChannelStats : Type 0 where
    pub address : Bytes
    pub worker : Bytes
    pub difficulty : Value P
    pub best_difficulty : Value P
    pub total_share_difficulty : Value P
    pub shares_accepted : ℕ
    pub shares_rejected : ℕ
    pub last_share_timestamp : ℤ
    pub connected_seconds : ℕ
    pub hashrate_windows : List (Value P)
    pub worker_accounting : P.Handle

  pub record ClientStats : Type 0 where
    pub address : Bytes
    pub worker : Bytes
    pub peer : Bytes
    pub user_agent : Bytes
    pub difficulty : Value P
    pub best_difficulty : Value P
    pub total_share_difficulty : Value P
    pub shares_accepted : ℕ
    pub shares_rejected : ℕ
    pub last_share_timestamp : ℤ
    pub connected_at : ℤ
    pub connected_seconds : ℕ
    pub subscribed : Bool
    pub authorized : Bool
    pub hashrate_windows : List (Value P)
    pub channels : List ClientChannelStats

  channel_of : Session P → Bool → ℕ → List (Value P) → ClientChannelStats
  channel_of s include_worker_accounting connected_seconds windows = record {
    address = value_or s.address [];
    worker = value_or s.worker [];
    difficulty = s.difficulty;
    best_difficulty = s.best_difficulty;
    total_share_difficulty = s.total_share_difficulty;
    shares_accepted = s.shares_accepted;
    shares_rejected = s.shares_rejected;
    last_share_timestamp = s.last_share_timestamp;
    connected_seconds = connected_seconds;
    hashrate_windows = windows;
    worker_accounting = if include_worker_accounting then s.worker_accounting else P.no_handle;
  }

  unfoldable pub stats : Session P → Bytes → Bool → Value P → ClientStats
  unfolding channel_of is_some
  stats s peer include_worker_accounting now_steady =
      let connected_seconds = P.double.to_nat (P.double.sub now_steady s.connected_at_steady) in
      let windows = snapshot_rates P.double s.hashrate now_steady in
      record {
        address = value_or s.address [];
        worker = value_or s.worker [];
        peer = peer;
        user_agent = s.user_agent;
        difficulty = s.difficulty;
        best_difficulty = s.best_difficulty;
        total_share_difficulty = s.total_share_difficulty;
        shares_accepted = s.shares_accepted;
        shares_rejected = s.shares_rejected;
        last_share_timestamp = s.last_share_timestamp;
        connected_at = s.connected_at;
        connected_seconds = connected_seconds;
        subscribed = s.subscribed;
        authorized = s.authorized;
        hashrate_windows = windows;
        channels =
            if s.authorized && is_some s.address
            then channel_of s include_worker_accounting connected_seconds windows ∷ []
            else [];
      }
