-- ===== src/Sv2/Messages/Encode.antt =====
-- sv2/messages.cpp: `encode_payload`, an overload for each message, and `encode_message`.
use erikslund_solo_pool.Prelude.{Bytes, Throws, bind}
use erikslund_solo_pool.Sv2.Codec.{CodecError, core_extension_id, make_extension_type, encode_frame}
use erikslund_solo_pool.Sv2.Writer.{◌>>◌, taken}
use erikslund_solo_pool.Sv2.Writer
use erikslund_solo_pool.Sv2.Messages.{
  SetupConnection, SetupConnectionSuccess, SetupConnectionError, OpenStandardMiningChannel,
  OpenStandardMiningChannelSuccess, OpenMiningChannelError, OpenExtendedMiningChannel,
  OpenExtendedMiningChannelSuccess, NewMiningJob, UpdateChannel, UpdateChannelError, CloseChannel,
  SetExtranoncePrefix, SubmitSharesStandard, SubmitSharesExtended, SubmitSharesSuccess,
  SubmitSharesError, NewExtendedMiningJob, SetNewPrevHash, SetTarget, Message, setup_connection,
  setup_connection_success, setup_connection_error, open_standard_mining_channel,
  open_standard_mining_channel_success, open_mining_channel_error, open_extended_mining_channel,
  open_extended_mining_channel_success, new_mining_job, update_channel, update_channel_error,
  close_channel, set_extranonce_prefix, submit_shares_standard, submit_shares_extended,
  submit_shares_success, submit_shares_error, new_extended_mining_job, set_new_prev_hash,
  set_target, message_type, channel_message,
}

unfoldable pub encode_setup_connection : SetupConnection → Throws CodecError Bytes
encode_setup_connection m = taken do
  Writer.u8 m.protocol
  Writer.u16 m.minimum_version
  Writer.u16 m.maximum_version
  Writer.u32 m.flags
  Writer.string m.endpoint_host
  Writer.u16 m.endpoint_port
  Writer.string m.vendor
  Writer.string m.hardware_version
  Writer.string m.firmware
  Writer.string m.device_id

unfoldable pub encode_setup_connection_success : SetupConnectionSuccess → Throws CodecError Bytes
encode_setup_connection_success m = taken do Writer.u16 m.used_version; Writer.u32 m.flags

unfoldable pub encode_setup_connection_error : SetupConnectionError → Throws CodecError Bytes
encode_setup_connection_error m = taken do Writer.u32 m.flags; Writer.string m.error_code

unfoldable pub encode_open_standard_mining_channel :
    OpenStandardMiningChannel → Throws CodecError Bytes
encode_open_standard_mining_channel m = taken do
  Writer.u32 m.request_id
  Writer.string m.user_identity
  Writer.f32 m.nominal_hash_rate
  Writer.u256 m.maximum_target

unfoldable pub encode_open_standard_mining_channel_success :
    OpenStandardMiningChannelSuccess → Throws CodecError Bytes
encode_open_standard_mining_channel_success m = taken do
  Writer.u32 m.request_id
  Writer.u32 m.channel_id
  Writer.u256 m.target
  Writer.b0_32 m.extranonce_prefix
  Writer.u32 m.group_channel_id

unfoldable pub encode_open_mining_channel_error : OpenMiningChannelError → Throws CodecError Bytes
encode_open_mining_channel_error m = taken do Writer.u32 m.request_id; Writer.string m.error_code

unfoldable pub encode_open_extended_mining_channel :
    OpenExtendedMiningChannel → Throws CodecError Bytes
encode_open_extended_mining_channel m = taken do
  Writer.u32 m.request_id
  Writer.string m.user_identity
  Writer.f32 m.nominal_hash_rate
  Writer.u256 m.maximum_target
  Writer.u16 m.minimum_extranonce_size

unfoldable pub encode_open_extended_mining_channel_success :
    OpenExtendedMiningChannelSuccess → Throws CodecError Bytes
encode_open_extended_mining_channel_success m = taken do
  Writer.u32 m.request_id
  Writer.u32 m.channel_id
  Writer.u256 m.target
  Writer.u16 m.extranonce_size
  Writer.b0_32 m.extranonce_prefix
  Writer.u32 m.group_channel_id

unfoldable pub encode_new_mining_job : NewMiningJob → Throws CodecError Bytes
encode_new_mining_job m = taken do
  Writer.u32 m.channel_id
  Writer.u32 m.job_id
  Writer.option_u32 m.minimum_ntime
  Writer.u32 m.version
  Writer.u256 m.merkle_root

unfoldable pub encode_update_channel : UpdateChannel → Throws CodecError Bytes
encode_update_channel m =
    taken do Writer.u32 m.channel_id; Writer.f32 m.nominal_hash_rate; Writer.u256 m.maximum_target

unfoldable pub encode_update_channel_error : UpdateChannelError → Throws CodecError Bytes
encode_update_channel_error m = taken do Writer.u32 m.channel_id; Writer.string m.error_code

unfoldable pub encode_close_channel : CloseChannel → Throws CodecError Bytes
encode_close_channel m = taken do Writer.u32 m.channel_id; Writer.string m.reason_code

unfoldable pub encode_set_extranonce_prefix : SetExtranoncePrefix → Throws CodecError Bytes
encode_set_extranonce_prefix m = taken do Writer.u32 m.channel_id; Writer.b0_32 m.extranonce_prefix

unfoldable pub encode_submit_shares_standard : SubmitSharesStandard → Throws CodecError Bytes
encode_submit_shares_standard m = taken do
  Writer.u32 m.channel_id
  Writer.u32 m.sequence_number
  Writer.u32 m.job_id
  Writer.u32 m.nonce
  Writer.u32 m.ntime
  Writer.u32 m.version

unfoldable pub encode_submit_shares_extended : SubmitSharesExtended → Throws CodecError Bytes
encode_submit_shares_extended m = taken do
  Writer.u32 m.channel_id
  Writer.u32 m.sequence_number
  Writer.u32 m.job_id
  Writer.u32 m.nonce
  Writer.u32 m.ntime
  Writer.u32 m.version
  Writer.b0_32 m.extranonce

unfoldable pub encode_submit_shares_success : SubmitSharesSuccess → Throws CodecError Bytes
encode_submit_shares_success m = taken do
  Writer.u32 m.channel_id
  Writer.u32 m.last_sequence_number
  Writer.u32 m.new_submits_accepted_count
  Writer.u64 m.new_shares_sum

unfoldable pub encode_submit_shares_error : SubmitSharesError → Throws CodecError Bytes
encode_submit_shares_error m =
    taken do Writer.u32 m.channel_id; Writer.u32 m.sequence_number; Writer.string m.error_code

unfoldable pub encode_new_extended_mining_job : NewExtendedMiningJob → Throws CodecError Bytes
encode_new_extended_mining_job m = taken do
  Writer.u32 m.channel_id
  Writer.u32 m.job_id
  Writer.option_u32 m.minimum_ntime
  Writer.u32 m.version
  Writer.boolean m.version_rolling_allowed
  Writer.sequence_u256 m.merkle_path
  Writer.b0_64k m.coinbase_tx_prefix
  Writer.b0_64k m.coinbase_tx_suffix

unfoldable pub encode_set_new_prev_hash : SetNewPrevHash → Throws CodecError Bytes
encode_set_new_prev_hash m = taken do
  Writer.u32 m.channel_id
  Writer.u32 m.job_id
  Writer.u256 m.previous_hash
  Writer.u32 m.minimum_ntime
  Writer.u32 m.nbits

unfoldable pub encode_set_target : SetTarget → Throws CodecError Bytes
encode_set_target m = taken do Writer.u32 m.channel_id; Writer.u256 m.maximum_target

unfoldable pub encode_payload : Message → Throws CodecError Bytes
encode_payload (setup_connection m) = encode_setup_connection m
encode_payload (setup_connection_success m) = encode_setup_connection_success m
encode_payload (setup_connection_error m) = encode_setup_connection_error m
encode_payload (open_standard_mining_channel m) = encode_open_standard_mining_channel m
encode_payload (open_standard_mining_channel_success m) =
    encode_open_standard_mining_channel_success m
encode_payload (open_mining_channel_error m) = encode_open_mining_channel_error m
encode_payload (open_extended_mining_channel m) = encode_open_extended_mining_channel m
encode_payload (open_extended_mining_channel_success m) =
    encode_open_extended_mining_channel_success m
encode_payload (new_mining_job m) = encode_new_mining_job m
encode_payload (update_channel m) = encode_update_channel m
encode_payload (update_channel_error m) = encode_update_channel_error m
encode_payload (close_channel m) = encode_close_channel m
encode_payload (set_extranonce_prefix m) = encode_set_extranonce_prefix m
encode_payload (submit_shares_standard m) = encode_submit_shares_standard m
encode_payload (submit_shares_extended m) = encode_submit_shares_extended m
encode_payload (submit_shares_success m) = encode_submit_shares_success m
encode_payload (submit_shares_error m) = encode_submit_shares_error m
encode_payload (new_extended_mining_job m) = encode_new_extended_mining_job m
encode_payload (set_new_prev_hash m) = encode_set_new_prev_hash m
encode_payload (set_target m) = encode_set_target m

-- The arguments of the frame are evaluated in this order.
unfoldable pub encode_message : Message → Throws CodecError Bytes
encode_message m =
    bind (make_extension_type core_extension_id (channel_message m)) λ extension_type.
      bind (encode_payload m) λ payload. encode_frame (record {
        extension_type = extension_type;
        message_type = message_type m;
        payload = payload;
      })
