-- ===== src/Sv2/Messages/Valid.antt =====
-- What the types of sv2/messages.hpp and the limits of the writer say of a message: each number fits
-- its field, a `U256` has 32 bytes, and strings and vectors have at most the length on the wire.
use erikslund_solo_pool.Prelude.{◌^◌, ◌≤◌, ◌<◌, All, length}
use erikslund_solo_pool.Sv2.Wire.Fields.{IsU256, IsOption}
use erikslund_solo_pool.Sv2.Messages.{
  Message, setup_connection, setup_connection_success, setup_connection_error,
  open_standard_mining_channel, open_standard_mining_channel_success, open_mining_channel_error,
  open_extended_mining_channel, open_extended_mining_channel_success, new_mining_job,
  update_channel, update_channel_error, close_channel, set_extranonce_prefix,
  submit_shares_standard, submit_shares_extended, submit_shares_success, submit_shares_error,
  new_extended_mining_job, set_new_prev_hash, set_target,
}

abbrev pub IsValid : Message → Type 0
IsValid (setup_connection m) =
    (m.protocol < 2 ^ 8)
    × (m.minimum_version < 2 ^ 16)
    × (m.maximum_version < 2 ^ 16)
    × (m.flags < 2 ^ 32)
    × (length m.endpoint_host ≤ 255)
    × (m.endpoint_port < 2 ^ 16)
    × (length m.vendor ≤ 255)
    × (length m.hardware_version ≤ 255)
    × (length m.firmware ≤ 255)
    × (length m.device_id ≤ 255)
IsValid (setup_connection_success m) = (m.used_version < 2 ^ 16) × (m.flags < 2 ^ 32)
IsValid (setup_connection_error m) = (m.flags < 2 ^ 32) × (length m.error_code ≤ 255)
IsValid (open_standard_mining_channel m) =
    (m.request_id < 2 ^ 32)
    × (length m.user_identity ≤ 255)
    × (m.nominal_hash_rate < 2 ^ 32)
    × (IsU256 m.maximum_target)
IsValid (open_standard_mining_channel_success m) =
    (m.request_id < 2 ^ 32)
    × (m.channel_id < 2 ^ 32)
    × (IsU256 m.target)
    × (length m.extranonce_prefix ≤ 32)
    × (m.group_channel_id < 2 ^ 32)
IsValid (open_mining_channel_error m) = (m.request_id < 2 ^ 32) × (length m.error_code ≤ 255)
IsValid (open_extended_mining_channel m) =
    (m.request_id < 2 ^ 32)
    × (length m.user_identity ≤ 255)
    × (m.nominal_hash_rate < 2 ^ 32)
    × (IsU256 m.maximum_target)
    × (m.minimum_extranonce_size < 2 ^ 16)
IsValid (open_extended_mining_channel_success m) =
    (m.request_id < 2 ^ 32)
    × (m.channel_id < 2 ^ 32)
    × (IsU256 m.target)
    × (m.extranonce_size < 2 ^ 16)
    × (length m.extranonce_prefix ≤ 32)
    × (m.group_channel_id < 2 ^ 32)
IsValid (new_mining_job m) =
    (m.channel_id < 2 ^ 32)
    × (m.job_id < 2 ^ 32)
    × (IsOption m.minimum_ntime)
    × (m.version < 2 ^ 32)
    × (IsU256 m.merkle_root)
IsValid (update_channel m) =
    (m.channel_id < 2 ^ 32) × (m.nominal_hash_rate < 2 ^ 32) × (IsU256 m.maximum_target)
IsValid (update_channel_error m) = (m.channel_id < 2 ^ 32) × (length m.error_code ≤ 255)
IsValid (close_channel m) = (m.channel_id < 2 ^ 32) × (length m.reason_code ≤ 255)
IsValid (set_extranonce_prefix m) = (m.channel_id < 2 ^ 32) × (length m.extranonce_prefix ≤ 32)
IsValid (submit_shares_standard m) =
    (m.channel_id < 2 ^ 32)
    × (m.sequence_number < 2 ^ 32)
    × (m.job_id < 2 ^ 32)
    × (m.nonce < 2 ^ 32)
    × (m.ntime < 2 ^ 32)
    × (m.version < 2 ^ 32)
IsValid (submit_shares_extended m) =
    (m.channel_id < 2 ^ 32)
    × (m.sequence_number < 2 ^ 32)
    × (m.job_id < 2 ^ 32)
    × (m.nonce < 2 ^ 32)
    × (m.ntime < 2 ^ 32)
    × (m.version < 2 ^ 32)
    × (length m.extranonce ≤ 32)
IsValid (submit_shares_success m) =
    (m.channel_id < 2 ^ 32)
    × (m.last_sequence_number < 2 ^ 32)
    × (m.new_submits_accepted_count < 2 ^ 32)
    × (m.new_shares_sum < 2 ^ 64)
IsValid (submit_shares_error m) =
    (m.channel_id < 2 ^ 32) × (m.sequence_number < 2 ^ 32) × (length m.error_code ≤ 255)
IsValid (new_extended_mining_job m) =
    (m.channel_id < 2 ^ 32)
    × (m.job_id < 2 ^ 32)
    × (IsOption m.minimum_ntime)
    × (m.version < 2 ^ 32)
    × (All IsU256 m.merkle_path)
    × (length m.merkle_path ≤ 255)
    × (length m.coinbase_tx_prefix ≤ 65535)
    × (length m.coinbase_tx_suffix ≤ 65535)
IsValid (set_new_prev_hash m) =
    (m.channel_id < 2 ^ 32)
    × (m.job_id < 2 ^ 32)
    × (IsU256 m.previous_hash)
    × (m.minimum_ntime < 2 ^ 32)
    × (m.nbits < 2 ^ 32)
IsValid (set_target m) = (m.channel_id < 2 ^ 32) × (IsU256 m.maximum_target)
