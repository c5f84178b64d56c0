-- ===== src/Stratum/Message/Lines.antt =====
-- stratum/message.cpp and util/json_number.hpp: the lines sent, as documents and, on the fast paths,
-- put together from texts.
use erikslund_solo_pool.Prelude.{
  Bool, true, false, ◌||◌, List, [], ◌∷◌, ◌++◌, Bytes, ◌==◌, if◌then◌else◌, codes,
}
use erikslund_solo_pool.Prelude.Double.{Double}
use erikslund_solo_pool.Stratum.Json.{Json}
use erikslund_solo_pool.Stratum.Job.{to_string}
use erikslund_solo_pool.Stratum.Message.{StratumError, value_or}

module _ (F : Double) (J : Json F.Value) where
  unfoldable pub id_wire : J.Value → Bytes
  id_wire id = value_or (J.write_json id) (codes "null")

  unfoldable pub make_result : J.Value → J.Value → J.Value
  make_result id result =
      J.object ((codes "error", J.null) ∷ (codes "id", id) ∷ (codes "result", result) ∷ [])

  unfoldable pub make_error : J.Value → StratumError → J.Value
  make_error id error = J.object (
      (
        codes "error",
        J.array (J.number (F.of_nat error.code) ∷ J.string error.message ∷ J.null ∷ []),
      )
      ∷ (codes "id", id)
      ∷ (codes "result", J.null)
      ∷ [])

  unfoldable pub make_notification : Bytes → J.Value → J.Value
  make_notification method params =
      J.object
        ((codes "id", J.null) ∷ (codes "method", J.string method) ∷ (codes "params", params) ∷ [])

  unfoldable pub make_result_line : J.Value → Bool → Bytes
  make_result_line id result =
      (codes "{\"error\":null,\"id\":" ++ id_wire id)
      ++ (if result then codes ",\"result\":true}" else codes ",\"result\":false}")

  unfoldable pub make_error_line : J.Value → StratumError → Bytes
  make_error_line id error =
      ((((codes "{\"error\":[" ++ to_string error.code) ++ codes ",\"") ++ error.message)
        ++ codes "\",null],\"id\":")
      ++ (id_wire id ++ codes ",\"result\":null}")

  -- The characters of a number, an exponent's letter made small, and whether there is a point or one.
  number_loop : Bytes → Bytes × Bool
  number_loop [] = ([], false)
  number_loop (c ∷ s) =
      let (rest, marked) = number_loop s in
      ((if c == b'E' then b'e' else c) ∷ rest, c == b'E' || c == b'e' || c == b'.' || marked)

  unfoldable pub format_json_number : F.Value → Bytes
  unfolding number_loop
  format_json_number value =
      let (s, marked) = number_loop (value_or (J.write_json (J.number value)) (codes "0")) in
      if marked then s else s ++ codes ".0"

  unfoldable pub make_set_difficulty_line : F.Value → Bytes
  make_set_difficulty_line difficulty =
      (codes "{\"id\":null,\"method\":\"mining.set_difficulty\",\"params\":["
        ++ format_json_number difficulty)
      ++ codes "]}"

branches_loop : List Bytes → Bool → Bytes
branches_loop [] first = []
branches_loop (branch ∷ branches) first =
    ((if first then [] else codes ",") ++ (b'"' ∷ branch)) ++ (b'"' ∷ branches_loop branches false)

unfoldable pub make_notify_line :
    Bytes → Bytes → Bytes → Bytes → List Bytes → Bytes → Bytes → Bytes → Bool → Bytes
unfolding branches_loop
make_notify_line job_id prevhash_stratum coinbase1_hex coinbase2_hex merkle_branch_hex version_hex
      nbits_hex ntime_hex clean =
    (codes "{\"id\":null,\"method\":\"mining.notify\",\"params\":[\"" ++ job_id)
    ++ ((codes "\",\"" ++ prevhash_stratum)
        ++ ((codes "\",\"" ++ coinbase1_hex)
            ++ ((codes "\",\"" ++ coinbase2_hex)
                ++ ((codes "\",[" ++ branches_loop merkle_branch_hex true)
                    ++ ((codes "],\"" ++ version_hex)
                        ++ ((codes "\",\"" ++ nbits_hex)
                            ++ ((codes "\",\"" ++ ntime_hex)
                                ++ (if clean then codes "\",true]}" else codes "\",false]}"))))))))
