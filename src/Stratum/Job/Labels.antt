-- ===== src/Stratum/Job/Labels.antt =====
-- stratum/job.cpp: the texts of rejections, for logs and metrics.
use erikslund_solo_pool.Prelude.{Bytes, codes}
use erikslund_solo_pool.Stratum.Job.Share.{
  ShareReject, no_reject, invalid_extranonce2_size, malformed_field, ntime_out_of_range,
  malformed_version_bits, version_rolling_not_negotiated, version_bits_outside_mask, above_target,
  RejectClass, stale, duplicate, malformed, ntime_class, version_class, low_difficulty,
}

unfoldable pub reject_reason : ShareReject → Bytes
reject_reason no_reject = codes "ok"
reject_reason invalid_extranonce2_size = codes "invalid extranonce2 size"
reject_reason malformed_field = codes "malformed share field"
reject_reason ntime_out_of_range = codes "ntime out of range"
reject_reason malformed_version_bits = codes "malformed version bits"
reject_reason version_rolling_not_negotiated = codes "version rolling not negotiated"
reject_reason version_bits_outside_mask = codes "version bits outside negotiated mask"
reject_reason above_target = codes "above target"

unfoldable pub reject_class_label : RejectClass → Bytes
reject_class_label stale = codes "stale"
reject_class_label duplicate = codes "duplicate"
reject_class_label malformed = codes "malformed"
reject_class_label ntime_class = codes "ntime"
reject_class_label version_class = codes "version"
reject_class_label low_difficulty = codes "low_difficulty"
