-- ===== src/Sv2/Messages/RoundTrip.antt =====
-- Every message: what `encode_payload` returns, its decoder reads back.
use erikslund_solo_pool.Sv2.Wire.{RoundTrip, Encodes-field, Encodes-last, Encodes-RoundTrip}
use erikslund_solo_pool.Sv2.Wire.Fields.{
  u8_fits, u16_fits, u32_fits, u64_fits, f32_fits, u256_fits, boolean_fits, string_fits, b0_32_fits,
  b0_64k_fits, sequence_u256_fits, option_u32_fits,
}
use erikslund_solo_pool.Sv2.Messages.{
  SetupConnection, SetupConnectionSuccess, SetupConnectionError, OpenStandardMiningChannel,
  OpenStandardMiningChannelSuccess, OpenMiningChannelError, OpenExtendedMiningChannel,
  OpenExtendedMiningChannelSuccess, NewMiningJob, UpdateChannel, UpdateChannelError, CloseChannel,
  SetExtranoncePrefix, SubmitSharesStandard, SubmitSharesExtended, SubmitSharesSuccess,
  SubmitSharesError, NewExtendedMiningJob, SetNewPrevHash, SetTarget, setup_connection,
  setup_connection_success, setup_connection_error, open_standard_mining_channel,
  open_standard_mining_channel_success, open_mining_channel_error, open_extended_mining_channel,
  open_extended_mining_channel_success, new_mining_job, update_channel, update_channel_error,
  close_channel, set_extranonce_prefix, submit_shares_standard, submit_shares_extended,
  submit_shares_success, submit_shares_error, new_extended_mining_job, set_new_prev_hash,
  set_target,
}
use erikslund_solo_pool.Sv2.Messages.Encode.{
  encode_setup_connection, encode_setup_connection_success, encode_setup_connection_error,
  encode_open_standard_mining_channel, encode_open_standard_mining_channel_success,
  encode_open_mining_channel_error, encode_open_extended_mining_channel,
  encode_open_extended_mining_channel_success, encode_new_mining_job, encode_update_channel,
  encode_update_channel_error, encode_close_channel, encode_set_extranonce_prefix,
  encode_submit_shares_standard, encode_submit_shares_extended, encode_submit_shares_success,
  encode_submit_shares_error, encode_new_extended_mining_job, encode_set_new_prev_hash,
  encode_set_target,
}
use erikslund_solo_pool.Sv2.Messages.Decode.{
  decode_setup_connection, decode_setup_connection_success, decode_setup_connection_error,
  decode_open_standard_mining_channel, decode_open_standard_mining_channel_success,
  decode_open_mining_channel_error, decode_open_extended_mining_channel,
  decode_open_extended_mining_channel_success, decode_new_mining_job, decode_update_channel,
  decode_update_channel_error, decode_close_channel, decode_set_extranonce_prefix,
  decode_submit_shares_standard, decode_submit_shares_extended, decode_submit_shares_success,
  decode_submit_shares_error, decode_new_extended_mining_job, decode_set_new_prev_hash,
  decode_set_target,
}
use erikslund_solo_pool.Sv2.Messages.Valid.{IsValid}

pub setup_connection-RoundTrip :
    (m : SetupConnection)
    → IsValid (setup_connection m)
    → RoundTrip 1291 (encode_setup_connection m) decode_setup_connection m
unfolding encode_setup_connection decode_setup_connection
setup_connection-RoundTrip m h = Encodes-RoundTrip (
    Encodes-field _ (u8_fits h.0) (
      Encodes-field _ (u16_fits h.1) (
        Encodes-field _ (u16_fits h.2) (
          Encodes-field _ (u32_fits h.3) (
            Encodes-field _ (string_fits h.4) (
              Encodes-field _ (u16_fits h.5) (
                Encodes-field _ (string_fits h.6) (
                  Encodes-field _ (string_fits h.7)
                    (Encodes-field _ (string_fits h.8) (Encodes-last _ (string_fits h.9)))))))))))

pub setup_connection_success-RoundTrip :
    (m : SetupConnectionSuccess)
    → IsValid (setup_connection_success m)
    → RoundTrip 6 (encode_setup_connection_success m) decode_setup_connection_success m
unfolding encode_setup_connection_success decode_setup_connection_success
setup_connection_success-RoundTrip m h =
    Encodes-RoundTrip (Encodes-field _ (u16_fits h.0) (Encodes-last _ (u32_fits h.1)))

pub setup_connection_error-RoundTrip :
    (m : SetupConnectionError)
    → IsValid (setup_connection_error m)
    → RoundTrip 260 (encode_setup_connection_error m) decode_setup_connection_error m
unfolding encode_setup_connection_error decode_setup_connection_error
setup_connection_error-RoundTrip m h =
    Encodes-RoundTrip (Encodes-field _ (u32_fits h.0) (Encodes-last _ (string_fits h.1)))

pub open_standard_mining_channel-RoundTrip :
    (m : OpenStandardMiningChannel)
    → IsValid (open_standard_mining_channel m)
    → RoundTrip 296 (encode_open_standard_mining_channel m) decode_open_standard_mining_channel m
unfolding encode_open_standard_mining_channel decode_open_standard_mining_channel
open_standard_mining_channel-RoundTrip m h = Encodes-RoundTrip (
    Encodes-field _ (u32_fits h.0) (
      Encodes-field _ (string_fits h.1)
        (Encodes-field _ (f32_fits h.2) (Encodes-last _ (u256_fits h.3)))))

pub open_standard_mining_channel_success-RoundTrip :
    (m : OpenStandardMiningChannelSuccess)
    → IsValid (open_standard_mining_channel_success m)
    → RoundTrip 77
        (encode_open_standard_mining_channel_success m)
        decode_open_standard_mining_channel_success
        m
unfolding encode_open_standard_mining_channel_success decode_open_standard_mining_channel_success
open_standard_mining_channel_success-RoundTrip m h = Encodes-RoundTrip (
    Encodes-field _ (u32_fits h.0) (
      Encodes-field _ (u32_fits h.1) (
        Encodes-field _ (u256_fits h.2)
          (Encodes-field _ (b0_32_fits h.3) (Encodes-last _ (u32_fits h.4))))))

pub open_mining_channel_error-RoundTrip :
    (m : OpenMiningChannelError)
    → IsValid (open_mining_channel_error m)
    → RoundTrip 260 (encode_open_mining_channel_error m) decode_open_mining_channel_error m
unfolding encode_open_mining_channel_error decode_open_mining_channel_error
open_mining_channel_error-RoundTrip m h =
    Encodes-RoundTrip (Encodes-field _ (u32_fits h.0) (Encodes-last _ (string_fits h.1)))

pub open_extended_mining_channel-RoundTrip :
    (m : OpenExtendedMiningChannel)
    → IsValid (open_extended_mining_channel m)
    → RoundTrip 298 (encode_open_extended_mining_channel m) decode_open_extended_mining_channel m
unfolding encode_open_extended_mining_channel decode_open_extended_mining_channel
open_extended_mining_channel-RoundTrip m h = Encodes-RoundTrip (
    Encodes-field _ (u32_fits h.0) (
      Encodes-field _ (string_fits h.1) (
        Encodes-field _ (f32_fits h.2)
          (Encodes-field _ (u256_fits h.3) (Encodes-last _ (u16_fits h.4))))))

pub open_extended_mining_channel_success-RoundTrip :
    (m : OpenExtendedMiningChannelSuccess)
    → IsValid (open_extended_mining_channel_success m)
    → RoundTrip 79
        (encode_open_extended_mining_channel_success m)
        decode_open_extended_mining_channel_success
        m
unfolding encode_open_extended_mining_channel_success decode_open_extended_mining_channel_success
open_extended_mining_channel_success-RoundTrip m h = Encodes-RoundTrip (
    Encodes-field _ (u32_fits h.0) (
      Encodes-field _ (u32_fits h.1) (
        Encodes-field _ (u256_fits h.2) (
          Encodes-field _ (u16_fits h.3)
            (Encodes-field _ (b0_32_fits h.4) (Encodes-last _ (u32_fits h.5)))))))

pub new_mining_job-RoundTrip :
    (m : NewMiningJob)
    → IsValid (new_mining_job m)
    → RoundTrip 49 (encode_new_mining_job m) decode_new_mining_job m
unfolding encode_new_mining_job decode_new_mining_job
new_mining_job-RoundTrip m h = Encodes-RoundTrip (
    Encodes-field _ (u32_fits h.0) (
      Encodes-field _ (u32_fits h.1) (
        Encodes-field _ (option_u32_fits m.minimum_ntime h.2)
          (Encodes-field _ (u32_fits h.3) (Encodes-last _ (u256_fits h.4))))))

pub update_channel-RoundTrip :
    (m : UpdateChannel)
    → IsValid (update_channel m)
    → RoundTrip 40 (encode_update_channel m) decode_update_channel m
unfolding encode_update_channel decode_update_channel
update_channel-RoundTrip m h = Encodes-RoundTrip (
    Encodes-field _ (u32_fits h.0)
      (Encodes-field _ (f32_fits h.1) (Encodes-last _ (u256_fits h.2))))

pub update_channel_error-RoundTrip :
    (m : UpdateChannelError)
    → IsValid (update_channel_error m)
    → RoundTrip 260 (encode_update_channel_error m) decode_update_channel_error m
unfolding encode_update_channel_error decode_update_channel_error
update_channel_error-RoundTrip m h =
    Encodes-RoundTrip (Encodes-field _ (u32_fits h.0) (Encodes-last _ (string_fits h.1)))

pub close_channel-RoundTrip :
    (m : CloseChannel)
    → IsValid (close_channel m)
    → RoundTrip 260 (encode_close_channel m) decode_close_channel m
unfolding encode_close_channel decode_close_channel
close_channel-RoundTrip m h =
    Encodes-RoundTrip (Encodes-field _ (u32_fits h.0) (Encodes-last _ (string_fits h.1)))

pub set_extranonce_prefix-RoundTrip :
    (m : SetExtranoncePrefix)
    → IsValid (set_extranonce_prefix m)
    → RoundTrip 37 (encode_set_extranonce_prefix m) decode_set_extranonce_prefix m
unfolding encode_set_extranonce_prefix decode_set_extranonce_prefix
set_extranonce_prefix-RoundTrip m h =
    Encodes-RoundTrip (Encodes-field _ (u32_fits h.0) (Encodes-last _ (b0_32_fits h.1)))

pub submit_shares_standard-RoundTrip :
    (m : SubmitSharesStandard)
    → IsValid (submit_shares_standard m)
    → RoundTrip 24 (encode_submit_shares_standard m) decode_submit_shares_standard m
unfolding encode_submit_shares_standard decode_submit_shares_standard
submit_shares_standard-RoundTrip m h = Encodes-RoundTrip (
    Encodes-field _ (u32_fits h.0) (
      Encodes-field _ (u32_fits h.1) (
        Encodes-field _ (u32_fits h.2) (
          Encodes-field _ (u32_fits h.3)
            (Encodes-field _ (u32_fits h.4) (Encodes-last _ (u32_fits h.5)))))))

pub submit_shares_extended-RoundTrip :
    (m : SubmitSharesExtended)
    → IsValid (submit_shares_extended m)
    → RoundTrip 57 (encode_submit_shares_extended m) decode_submit_shares_extended m
unfolding encode_submit_shares_extended decode_submit_shares_extended
submit_shares_extended-RoundTrip m h = Encodes-RoundTrip (
    Encodes-field _ (u32_fits h.0) (
      Encodes-field _ (u32_fits h.1) (
        Encodes-field _ (u32_fits h.2) (
          Encodes-field _ (u32_fits h.3) (
            Encodes-field _ (u32_fits h.4)
              (Encodes-field _ (u32_fits h.5) (Encodes-last _ (b0_32_fits h.6))))))))

pub submit_shares_success-RoundTrip :
    (m : SubmitSharesSuccess)
    → IsValid (submit_shares_success m)
    → RoundTrip 20 (encode_submit_shares_success m) decode_submit_shares_success m
unfolding encode_submit_shares_success decode_submit_shares_success
submit_shares_success-RoundTrip m h = Encodes-RoundTrip (
    Encodes-field _ (u32_fits h.0) (
      Encodes-field _ (u32_fits h.1)
        (Encodes-field _ (u32_fits h.2) (Encodes-last _ (u64_fits h.3)))))

pub submit_shares_error-RoundTrip :
    (m : SubmitSharesError)
    → IsValid (submit_shares_error m)
    → RoundTrip 264 (encode_submit_shares_error m) decode_submit_shares_error m
unfolding encode_submit_shares_error decode_submit_shares_error
submit_shares_error-RoundTrip m h = Encodes-RoundTrip (
    Encodes-field _ (u32_fits h.0)
      (Encodes-field _ (u32_fits h.1) (Encodes-last _ (string_fits h.2))))

pub new_extended_mining_job-RoundTrip :
    (m : NewExtendedMiningJob)
    → IsValid (new_extended_mining_job m)
    → RoundTrip 139253 (encode_new_extended_mining_job m) decode_new_extended_mining_job m
unfolding encode_new_extended_mining_job decode_new_extended_mining_job
new_extended_mining_job-RoundTrip m h = Encodes-RoundTrip (
    Encodes-field _ (u32_fits h.0) (
      Encodes-field _ (u32_fits h.1) (
        Encodes-field _ (option_u32_fits m.minimum_ntime h.2) (
          Encodes-field _ (u32_fits h.3) (
            Encodes-field _ (boolean_fits m.version_rolling_allowed) (
              Encodes-field _ (sequence_u256_fits h.4 h.5)
                (Encodes-field _ (b0_64k_fits h.6) (Encodes-last _ (b0_64k_fits h.7)))))))))

pub set_new_prev_hash-RoundTrip :
    (m : SetNewPrevHash)
    → IsValid (set_new_prev_hash m)
    → RoundTrip 48 (encode_set_new_prev_hash m) decode_set_new_prev_hash m
unfolding encode_set_new_prev_hash decode_set_new_prev_hash
set_new_prev_hash-RoundTrip m h = Encodes-RoundTrip (
    Encodes-field _ (u32_fits h.0) (
      Encodes-field _ (u32_fits h.1) (
        Encodes-field _ (u256_fits h.2)
          (Encodes-field _ (u32_fits h.3) (Encodes-last _ (u32_fits h.4))))))

pub set_target-RoundTrip :
    (m : SetTarget)
    → IsValid (set_target m)
    → RoundTrip 36 (encode_set_target m) decode_set_target m
unfolding encode_set_target decode_set_target
set_target-RoundTrip m h =
    Encodes-RoundTrip (Encodes-field _ (u32_fits h.0) (Encodes-last _ (u256_fits h.1)))
