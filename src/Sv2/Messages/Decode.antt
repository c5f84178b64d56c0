-- ===== src/Sv2/Messages/Decode.antt =====
-- sv2/messages.cpp: a decoder for each message.
use erikslund_solo_pool.Prelude.{Bytes, Throws, ok, bind}
use erikslund_solo_pool.Sv2.Codec.{CodecError}
use erikslund_solo_pool.Sv2.Reader.{Reader, ◌>>=◌, pure, decode}
use erikslund_solo_pool.Sv2.Reader
use erikslund_solo_pool.Sv2.Messages.{
  SetupConnection, SetupConnectionSuccess, SetupConnectionError, OpenStandardMiningChannel,
  OpenStandardMiningChannelSuccess, OpenMiningChannelError, OpenExtendedMiningChannel,
  OpenExtendedMiningChannelSuccess, NewMiningJob, UpdateChannel, UpdateChannelError, CloseChannel,
  SetExtranoncePrefix, SubmitSharesStandard, SubmitSharesExtended, SubmitSharesSuccess,
  SubmitSharesError, NewExtendedMiningJob, SetNewPrevHash, SetTarget, Message, setup_connection,
  setup_connection_success, setup_connection_error, open_standard_mining_channel,
  open_standard_mining_channel_success, open_mining_channel_error, open_extended_mining_channel,
  open_extended_mining_channel_success, new_mining_job, update_channel, update_channel_error,
  close_channel, set_extranonce_prefix, submit_shares_standard, submit_shares_extended,
  submit_shares_success, submit_shares_error, new_extended_mining_job, set_new_prev_hash,
  set_target,
}

unfoldable pub decode_setup_connection : Bytes → Throws CodecError SetupConnection
decode_setup_connection p = decode p do
  protocol ← Reader.u8
  minimum_version ← Reader.u16
  maximum_version ← Reader.u16
  flags ← Reader.u32
  endpoint_host ← Reader.string
  endpoint_port ← Reader.u16
  vendor ← Reader.string
  hardware_version ← Reader.string
  firmware ← Reader.string
  device_id ← Reader.string
  pure (record {
    protocol = protocol;
    minimum_version = minimum_version;
    maximum_version = maximum_version;
    flags = flags;
    endpoint_host = endpoint_host;
    endpoint_port = endpoint_port;
    vendor = vendor;
    hardware_version = hardware_version;
    firmware = firmware;
    device_id = device_id;
  })

unfoldable pub decode_setup_connection_success : Bytes → Throws CodecError SetupConnectionSuccess
decode_setup_connection_success p = decode p do
  used_version ← Reader.u16
  flags ← Reader.u32
  pure (record { used_version = used_version; flags = flags })

unfoldable pub decode_setup_connection_error : Bytes → Throws CodecError SetupConnectionError
decode_setup_connection_error p = decode p do
  flags ← Reader.u32
  error_code ← Reader.string
  pure (record { flags = flags; error_code = error_code })

unfoldable pub decode_open_standard_mining_channel :
    Bytes → Throws CodecError OpenStandardMiningChannel
decode_open_standard_mining_channel p = decode p do
  request_id ← Reader.u32
  user_identity ← Reader.string
  nominal_hash_rate ← Reader.f32
  maximum_target ← Reader.u256
  pure (record {
    request_id = request_id;
    user_identity = user_identity;
    nominal_hash_rate = nominal_hash_rate;
    maximum_target = maximum_target;
  })

unfoldable pub decode_open_standard_mining_channel_success :
    Bytes → Throws CodecError OpenStandardMiningChannelSuccess
decode_open_standard_mining_channel_success p = decode p do
  request_id ← Reader.u32
  channel_id ← Reader.u32
  target ← Reader.u256
  extranonce_prefix ← Reader.b0_32
  group_channel_id ← Reader.u32
  pure (record {
    request_id = request_id;
    channel_id = channel_id;
    target = target;
    extranonce_prefix = extranonce_prefix;
    group_channel_id = group_channel_id;
  })

unfoldable pub decode_open_mining_channel_error : Bytes → Throws CodecError OpenMiningChannelError
decode_open_mining_channel_error p = decode p do
  request_id ← Reader.u32
  error_code ← Reader.string
  pure (record { request_id = request_id; error_code = error_code })

unfoldable pub decode_open_extended_mining_channel :
    Bytes → Throws CodecError OpenExtendedMiningChannel
decode_open_extended_mining_channel p = decode p do
  request_id ← Reader.u32
  user_identity ← Reader.string
  nominal_hash_rate ← Reader.f32
  maximum_target ← Reader.u256
  minimum_extranonce_size ← Reader.u16
  pure (record {
    request_id = request_id;
    user_identity = user_identity;
    nominal_hash_rate = nominal_hash_rate;
    maximum_target = maximum_target;
    minimum_extranonce_size = minimum_extranonce_size;
  })

unfoldable pub decode_open_extended_mining_channel_success :
    Bytes → Throws CodecError OpenExtendedMiningChannelSuccess
decode_open_extended_mining_channel_success p = decode p do
  request_id ← Reader.u32
  channel_id ← Reader.u32
  target ← Reader.u256
  extranonce_size ← Reader.u16
  extranonce_prefix ← Reader.b0_32
  group_channel_id ← Reader.u32
  pure (record {
    request_id = request_id;
    channel_id = channel_id;
    target = target;
    extranonce_size = extranonce_size;
    extranonce_prefix = extranonce_prefix;
    group_channel_id = group_channel_id;
  })

unfoldable pub decode_new_mining_job : Bytes → Throws CodecError NewMiningJob
decode_new_mining_job p = decode p do
  channel_id ← Reader.u32
  job_id ← Reader.u32
  minimum_ntime ← Reader.option_u32
  version ← Reader.u32
  merkle_root ← Reader.u256
  pure (record {
    channel_id = channel_id;
    job_id = job_id;
    minimum_ntime = minimum_ntime;
    version = version;
    merkle_root = merkle_root;
  })

unfoldable pub decode_update_channel : Bytes → Throws CodecError UpdateChannel
decode_update_channel p = decode p do
  channel_id ← Reader.u32
  nominal_hash_rate ← Reader.f32
  maximum_target ← Reader.u256
  pure (record {
    channel_id = channel_id;
    nominal_hash_rate = nominal_hash_rate;
    maximum_target = maximum_target;
  })

unfoldable pub decode_update_channel_error : Bytes → Throws CodecError UpdateChannelError
decode_update_channel_error p = decode p do
  channel_id ← Reader.u32
  error_code ← Reader.string
  pure (record { channel_id = channel_id; error_code = error_code })

unfoldable pub decode_close_channel : Bytes → Throws CodecError CloseChannel
decode_close_channel p = decode p do
  channel_id ← Reader.u32
  reason_code ← Reader.string
  pure (record { channel_id = channel_id; reason_code = reason_code })

unfoldable pub decode_set_extranonce_prefix : Bytes → Throws CodecError SetExtranoncePrefix
decode_set_extranonce_prefix p = decode p do
  channel_id ← Reader.u32
  extranonce_prefix ← Reader.b0_32
  pure (record { channel_id = channel_id; extranonce_prefix = extranonce_prefix })

unfoldable pub decode_submit_shares_standard : Bytes → Throws CodecError SubmitSharesStandard
decode_submit_shares_standard p = decode p do
  channel_id ← Reader.u32
  sequence_number ← Reader.u32
  job_id ← Reader.u32
  nonce ← Reader.u32
  ntime ← Reader.u32
  version ← Reader.u32
  pure (record {
    channel_id = channel_id;
    sequence_number = sequence_number;
    job_id = job_id;
    nonce = nonce;
    ntime = ntime;
    version = version;
  })

unfoldable pub decode_submit_shares_extended : Bytes → Throws CodecError SubmitSharesExtended
decode_submit_shares_extended p = decode p do
  channel_id ← Reader.u32
  sequence_number ← Reader.u32
  job_id ← Reader.u32
  nonce ← Reader.u32
  ntime ← Reader.u32
  version ← Reader.u32
  extranonce ← Reader.b0_32
  pure (record {
    channel_id = channel_id;
    sequence_number = sequence_number;
    job_id = job_id;
    nonce = nonce;
    ntime = ntime;
    version = version;
    extranonce = extranonce;
  })

unfoldable pub decode_submit_shares_success : Bytes → Throws CodecError SubmitSharesSuccess
decode_submit_shares_success p = decode p do
  channel_id ← Reader.u32
  last_sequence_number ← Reader.u32
  new_submits_accepted_count ← Reader.u32
  new_shares_sum ← Reader.u64
  pure (record {
    channel_id = channel_id;
    last_sequence_number = last_sequence_number;
    new_submits_accepted_count = new_submits_accepted_count;
    new_shares_sum = new_shares_sum;
  })

unfoldable pub decode_submit_shares_error : Bytes → Throws CodecError SubmitSharesError
decode_submit_shares_error p = decode p do
  channel_id ← Reader.u32
  sequence_number ← Reader.u32
  error_code ← Reader.string
  pure (record {
    channel_id = channel_id;
    sequence_number = sequence_number;
    error_code = error_code;
  })

unfoldable pub decode_new_extended_mining_job : Bytes → Throws CodecError NewExtendedMiningJob
decode_new_extended_mining_job p = decode p do
  channel_id ← Reader.u32
  job_id ← Reader.u32
  minimum_ntime ← Reader.option_u32
  version ← Reader.u32
  version_rolling_allowed ← Reader.boolean
  merkle_path ← Reader.sequence_u256
  coinbase_tx_prefix ← Reader.b0_64k
  coinbase_tx_suffix ← Reader.b0_64k
  pure (record {
    channel_id = channel_id;
    job_id = job_id;
    minimum_ntime = minimum_ntime;
    version = version;
    version_rolling_allowed = version_rolling_allowed;
    merkle_path = merkle_path;
    coinbase_tx_prefix = coinbase_tx_prefix;
    coinbase_tx_suffix = coinbase_tx_suffix;
  })

unfoldable pub decode_set_new_prev_hash : Bytes → Throws CodecError SetNewPrevHash
decode_set_new_prev_hash p = decode p do
  channel_id ← Reader.u32
  job_id ← Reader.u32
  previous_hash ← Reader.u256
  minimum_ntime ← Reader.u32
  nbits ← Reader.u32
  pure (record {
    channel_id = channel_id;
    job_id = job_id;
    previous_hash = previous_hash;
    minimum_ntime = minimum_ntime;
    nbits = nbits;
  })

unfoldable pub decode_set_target : Bytes → Throws CodecError SetTarget
decode_set_target p = decode p do
  channel_id ← Reader.u32
  maximum_target ← Reader.u256
  pure (record { channel_id = channel_id; maximum_target = maximum_target })

-- The decoder for messages of the kind of `m`.
unfoldable pub decode_as : Message → Bytes → Throws CodecError Message
decode_as (setup_connection m) p = bind (decode_setup_connection p) (λ m'. ok (setup_connection m'))
decode_as (setup_connection_success m) p =
    bind (decode_setup_connection_success p) (λ m'. ok (setup_connection_success m'))
decode_as (setup_connection_error m) p =
    bind (decode_setup_connection_error p) (λ m'. ok (setup_connection_error m'))
decode_as (open_standard_mining_channel m) p =
    bind (decode_open_standard_mining_channel p) (λ m'. ok (open_standard_mining_channel m'))
decode_as (open_standard_mining_channel_success m) p =
    bind (decode_open_standard_mining_channel_success p)
      (λ m'. ok (open_standard_mining_channel_success m'))
decode_as (open_mining_channel_error m) p =
    bind (decode_open_mining_channel_error p) (λ m'. ok (open_mining_channel_error m'))
decode_as (open_extended_mining_channel m) p =
    bind (decode_open_extended_mining_channel p) (λ m'. ok (open_extended_mining_channel m'))
decode_as (open_extended_mining_channel_success m) p =
    bind (decode_open_extended_mining_channel_success p)
      (λ m'. ok (open_extended_mining_channel_success m'))
decode_as (new_mining_job m) p = bind (decode_new_mining_job p) (λ m'. ok (new_mining_job m'))
decode_as (update_channel m) p = bind (decode_update_channel p) (λ m'. ok (update_channel m'))
decode_as (update_channel_error m) p =
    bind (decode_update_channel_error p) (λ m'. ok (update_channel_error m'))
decode_as (close_channel m) p = bind (decode_close_channel p) (λ m'. ok (close_channel m'))
decode_as (set_extranonce_prefix m) p =
    bind (decode_set_extranonce_prefix p) (λ m'. ok (set_extranonce_prefix m'))
decode_as (submit_shares_standard m) p =
    bind (decode_submit_shares_standard p) (λ m'. ok (submit_shares_standard m'))
decode_as (submit_shares_extended m) p =
    bind (decode_submit_shares_extended p) (λ m'. ok (submit_shares_extended m'))
decode_as (submit_shares_success m) p =
    bind (decode_submit_shares_success p) (λ m'. ok (submit_shares_success m'))
decode_as (submit_shares_error m) p =
    bind (decode_submit_shares_error p) (λ m'. ok (submit_shares_error m'))
decode_as (new_extended_mining_job m) p =
    bind (decode_new_extended_mining_job p) (λ m'. ok (new_extended_mining_job m'))
decode_as (set_new_prev_hash m) p =
    bind (decode_set_new_prev_hash p) (λ m'. ok (set_new_prev_hash m'))
decode_as (set_target m) p = bind (decode_set_target p) (λ m'. ok (set_target m'))
