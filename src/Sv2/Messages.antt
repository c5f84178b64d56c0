-- ===== src/Sv2/Messages.antt =====
-- sv2/messages.hpp: the messages. A string, a `U256` or a byte vector is the list of its bytes, and a
-- float its 32-bit pattern.
pub mod Encode
pub mod Decode
pub mod Valid
pub mod RoundTrip
pub mod Delivery
use erikslund_solo_pool.Prelude.{ℕ, Bool, true, false, List, Bytes, Option}

pub record SetupConnection : Type 0 where
  pub protocol : ℕ
  pub minimum_version : ℕ
  pub maximum_version : ℕ
  pub flags : ℕ
  pub endpoint_host : Bytes
  pub endpoint_port : ℕ
  pub vendor : Bytes
  pub hardware_version : Bytes
  pub firmware : Bytes
  pub device_id : Bytes

pub record SetupConnectionSuccess : Type 0 where
  pub used_version : ℕ
  pub flags : ℕ

pub record SetupConnectionError : Type 0 where
  pub flags : ℕ
  pub error_code : Bytes

pub record OpenStandardMiningChannel : Type 0 where
  pub request_id : ℕ
  pub user_identity : Bytes
  pub nominal_hash_rate : ℕ
  pub maximum_target : Bytes

pub record OpenStandardMiningChannelSuccess : Type 0 where
  pub request_id : ℕ
  pub channel_id : ℕ
  pub target : Bytes
  pub extranonce_prefix : Bytes
  pub group_channel_id : ℕ

pub record OpenMiningChannelError : Type 0 where
  pub request_id : ℕ
  pub error_code : Bytes

pub record OpenExtendedMiningChannel : Type 0 where
  pub request_id : ℕ
  pub user_identity : Bytes
  pub nominal_hash_rate : ℕ
  pub maximum_target : Bytes
  pub minimum_extranonce_size : ℕ

pub record OpenExtendedMiningChannelSuccess : Type 0 where
  pub request_id : ℕ
  pub channel_id : ℕ
  pub target : Bytes
  pub extranonce_size : ℕ
  pub extranonce_prefix : Bytes
  pub group_channel_id : ℕ

pub record NewMiningJob : Type 0 where
  pub channel_id : ℕ
  pub job_id : ℕ
  pub minimum_ntime : Option ℕ
  pub version : ℕ
  pub merkle_root : Bytes

pub record UpdateChannel : Type 0 where
  pub channel_id : ℕ
  pub nominal_hash_rate : ℕ
  pub maximum_target : Bytes

pub record UpdateChannelError : Type 0 where
  pub channel_id : ℕ
  pub error_code : Bytes

pub record CloseChannel : Type 0 where
  pub channel_id : ℕ
  pub reason_code : Bytes

pub record SetExtranoncePrefix : Type 0 where
  pub channel_id : ℕ
  pub extranonce_prefix : Bytes

pub record SubmitSharesStandard : Type 0 where
  pub channel_id : ℕ
  pub sequence_number : ℕ
  pub job_id : ℕ
  pub nonce : ℕ
  pub ntime : ℕ
  pub version : ℕ

pub record SubmitSharesExtended : Type 0 where
  pub channel_id : ℕ
  pub sequence_number : ℕ
  pub job_id : ℕ
  pub nonce : ℕ
  pub ntime : ℕ
  pub version : ℕ
  pub extranonce : Bytes

pub record SubmitSharesSuccess : Type 0 where
  pub channel_id : ℕ
  pub last_sequence_number : ℕ
  pub new_submits_accepted_count : ℕ
  pub new_shares_sum : ℕ

pub record SubmitSharesError : Type 0 where
  pub channel_id : ℕ
  pub sequence_number : ℕ
  pub error_code : Bytes

pub record NewExtendedMiningJob : Type 0 where
  pub channel_id : ℕ
  pub job_id : ℕ
  pub minimum_ntime : Option ℕ
  pub version : ℕ
  pub version_rolling_allowed : Bool
  pub merkle_path : List Bytes
  pub coinbase_tx_prefix : Bytes
  pub coinbase_tx_suffix : Bytes

pub record SetNewPrevHash : Type 0 where
  pub channel_id : ℕ
  pub job_id : ℕ
  pub previous_hash : Bytes
  pub minimum_ntime : ℕ
  pub nbits : ℕ

pub record SetTarget : Type 0 where
  pub channel_id : ℕ
  pub maximum_target : Bytes

-- The overload set of `encode_payload` and the template argument of `encode_message`.
pub data Message : Type 0 where
  setup_connection : SetupConnection → Message
  setup_connection_success : SetupConnectionSuccess → Message
  setup_connection_error : SetupConnectionError → Message
  open_standard_mining_channel : OpenStandardMiningChannel → Message
  open_standard_mining_channel_success : OpenStandardMiningChannelSuccess → Message
  open_mining_channel_error : OpenMiningChannelError → Message
  open_extended_mining_channel : OpenExtendedMiningChannel → Message
  open_extended_mining_channel_success : OpenExtendedMiningChannelSuccess → Message
  new_mining_job : NewMiningJob → Message
  update_channel : UpdateChannel → Message
  update_channel_error : UpdateChannelError → Message
  close_channel : CloseChannel → Message
  set_extranonce_prefix : SetExtranoncePrefix → Message
  submit_shares_standard : SubmitSharesStandard → Message
  submit_shares_extended : SubmitSharesExtended → Message
  submit_shares_success : SubmitSharesSuccess → Message
  submit_shares_error : SubmitSharesError → Message
  new_extended_mining_job : NewExtendedMiningJob → Message
  set_new_prev_hash : SetNewPrevHash → Message
  set_target : SetTarget → Message

unfoldable pub message_type : Message → ℕ
message_type (setup_connection m) = 0x00
message_type (setup_connection_success m) = 0x01
message_type (setup_connection_error m) = 0x02
message_type (open_standard_mining_channel m) = 0x10
message_type (open_standard_mining_channel_success m) = 0x11
message_type (open_mining_channel_error m) = 0x12
message_type (open_extended_mining_channel m) = 0x13
message_type (open_extended_mining_channel_success m) = 0x14
message_type (new_mining_job m) = 0x15
message_type (update_channel m) = 0x16
message_type (update_channel_error m) = 0x17
message_type (close_channel m) = 0x18
message_type (set_extranonce_prefix m) = 0x19
message_type (submit_shares_standard m) = 0x1a
message_type (submit_shares_extended m) = 0x1b
message_type (submit_shares_success m) = 0x1c
message_type (submit_shares_error m) = 0x1d
message_type (new_extended_mining_job m) = 0x1f
message_type (set_new_prev_hash m) = 0x20
message_type (set_target m) = 0x21

unfoldable pub channel_message : Message → Bool
channel_message (setup_connection m) = false
channel_message (setup_connection_success m) = false
channel_message (setup_connection_error m) = false
channel_message (open_standard_mining_channel m) = false
channel_message (open_standard_mining_channel_success m) = false
channel_message (open_mining_channel_error m) = false
channel_message (open_extended_mining_channel m) = false
channel_message (open_extended_mining_channel_success m) = false
channel_message (new_mining_job m) = true
channel_message (update_channel m) = true
channel_message (update_channel_error m) = true
channel_message (close_channel m) = true
channel_message (set_extranonce_prefix m) = true
channel_message (submit_shares_standard m) = true
channel_message (submit_shares_extended m) = true
channel_message (submit_shares_success m) = true
channel_message (submit_shares_error m) = true
channel_message (new_extended_mining_job m) = true
channel_message (set_new_prev_hash m) = true
channel_message (set_target m) = true
