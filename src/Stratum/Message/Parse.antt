-- ===== src/Stratum/Message/Parse.antt =====
-- stratum/message.cpp: a request, read from its line by the typed path first and else from the
-- document.
use erikslund_solo_pool.Prelude.{
  Bool, true, false, not, ◌&&◌, ◌||◌, List, [], ◌∷◌, Bytes, Option, none, some, if◌then◌else◌,
  same_bytes, codes,
}
use erikslund_solo_pool.Prelude.Double.{Double}
use erikslund_solo_pool.Stratum.Json.{Json, RequestWire}
use erikslund_solo_pool.Stratum.Message.{Request, value_or, is_some, within_depth}

module _ (F : Double) (J : Json F.Value) where
  unfoldable pub normalize_request_id : J.Value → J.Value
  unfolding is_some
  normalize_request_id raw_id =
      if is_some (J.as_string raw_id) then raw_id else elim (J.as_number raw_id) [
        | none ↦ J.null
        | some value ↦ if F.is_finite value && J.is_whole value then raw_id else J.null
      ]

  -- A request with its defaults.
  new_request : J.Value → Bytes → List Bytes → Request J.Value F.Value
  new_request id method params = record {
    id = id;
    method = method;
    params = params;
    configure_extensions = [];
    configure_version_rolling = false;
    version_rolling_mask_present = false;
    version_rolling_mask = none;
    suggested_difficulty = none;
  }

  strings_of : List J.Value → List Bytes
  strings_of [] = []
  strings_of (element ∷ elements) = value_or (J.as_string element) [] ∷ strings_of elements

  -- The strings among the extensions that a client asks for.
  extensions_of : List J.Value → List Bytes
  extensions_of [] = []
  extensions_of (extension ∷ extensions) =
      let rest = extensions_of extensions in
      elim (J.as_string extension) [ none ↦ rest | some name ↦ name ∷ rest ]

  unfoldable pub has_version_rolling : List Bytes → Bool
  has_version_rolling [] = false
  has_version_rolling (name ∷ names) =
      same_bytes name (codes "version-rolling") || has_version_rolling names

  first_extensions : List J.Value → List Bytes
  unfolding extensions_of
  first_extensions [] = []
  first_extensions (first ∷ rest) = extensions_of (value_or (J.as_array first) [])

  -- The mask of the second parameter, when that is an object with the key.
  second_mask : List J.Value → Option J.Value
  second_mask (first ∷ (second ∷ rest)) =
      if J.is_object second then J.at second (codes "version-rolling.mask") else none
  second_mask params = none

  suggested_of : List J.Value → Option F.Value
  suggested_of [] = none
  suggested_of (first ∷ rest) = elim (J.as_number first) [
    | some value ↦ some value
    | none ↦ elim (J.as_string first) [ none ↦ none | some text ↦ J.from_chars text ]
  ]

  read_configure : Request J.Value F.Value → List J.Value → Request J.Value F.Value
  unfolding first_extensions second_mask has_version_rolling
  read_configure request params =
      let extensions = first_extensions params in
      let extended : Request J.Value F.Value = record request {
        configure_extensions = extensions;
        configure_version_rolling = has_version_rolling extensions;
      } in
      elim (second_mask params) [
        | none ↦ extended
        | some mask ↦ record extended {
          version_rolling_mask_present = true;
          version_rolling_mask = J.as_string mask;
        }
      ]

  read_params : Request J.Value F.Value → Option (List J.Value) → Request J.Value F.Value
  unfolding strings_of read_configure suggested_of
  read_params request none = request
  read_params request (some params) =
      let named : Request J.Value F.Value = record request { params = strings_of params } in
      let configured : Request J.Value F.Value =
        if same_bytes request.method (codes "mining.configure")
        then read_configure named params
        else named in
      if same_bytes request.method (codes "mining.suggest_difficulty")
      then record configured { suggested_difficulty = suggested_of params }
      else configured

  request_id : Option J.Value → J.Value
  request_id none = J.null
  request_id (some raw_id) = normalize_request_id raw_id

  method_of : J.Value → Option Bytes
  method_of doc = elim (J.at doc (codes "method")) [ none ↦ none | some m ↦ J.as_string m ]

  params_of : J.Value → Option (List J.Value)
  params_of doc = elim (J.at doc (codes "params")) [ none ↦ none | some ps ↦ J.as_array ps ]

  read_doc : J.Value → Option (Request J.Value F.Value)
  unfolding new_request request_id method_of params_of read_params
  read_doc doc = if not (J.is_object doc) then none else elim (method_of doc) [
    | none ↦ none
    | some method ↦
        let request = new_request (request_id (J.at doc (codes "id"))) method [] in
        some (read_params request (params_of doc))
  ]

  unfoldable pub parse_request_dom : Bytes → Option (Request J.Value F.Value)
  unfolding read_doc
  parse_request_dom line = elim (J.read_json line) [ none ↦ none | some doc ↦ read_doc doc ]

  is_nested : Bytes → Bool
  is_nested method =
      same_bytes method (codes "mining.configure")
      || same_bytes method (codes "mining.suggest_difficulty")

  read_wire : RequestWire J.Value → Bytes → Option (Request J.Value F.Value)
  unfolding new_request is_nested
  read_wire wire line = elim wire.method [
    | none ↦ none
    | some method ↦
        if is_nested method
        then parse_request_dom line
        else some (new_request (normalize_request_id wire.id) method (value_or wire.params []))
  ]

  unfoldable pub parse_request : Bytes → Option (Request J.Value F.Value)
  unfolding read_wire
  parse_request line = if not (within_depth line) then none else elim (J.read_request line) [
    | none ↦ parse_request_dom line
    | some wire ↦ read_wire wire line
  ]
