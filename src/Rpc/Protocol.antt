-- ===== src/Rpc/Protocol.antt =====
-- pkg/protocol/jsonrpc.go. A json.RawMessage is its text, and `none` if it is nil.
use auxitalk.Base.{ℤ, negsuc, String, [], ◌∷◌, Option, none, some, Result, ok, err, concat}

abbrev pub Raw : Type 0
Raw = String

abbrev pub version : String
version = "2.0"

pub record Request : Type 0 where
  pub jsonrpc : String
  pub id : String
  pub method : String
  pub params : Option Raw

pub record RpcError : Type 0 where
  pub code : ℤ
  pub message : String
  pub info : Option Raw

pub record Response : Type 0 where
  pub jsonrpc : String
  pub id : String
  pub result : Option Raw
  pub error : Option RpcError

abbrev pub err_parse : ℤ
err_parse = negsuc 32699

abbrev pub err_invalid_request : ℤ
err_invalid_request = negsuc 32599

abbrev pub err_method_not_found : ℤ
err_method_not_found = negsuc 32600

abbrev pub err_invalid_params : ℤ
err_invalid_params = negsuc 32601

abbrev pub err_internal : ℤ
err_internal = negsuc 32602

-- `marshalled` is what json.Marshal makes of the value, and `none` for a nil value.
unfoldable pub new_request : String → String → Option (Result Raw) → Result Request
new_request id method none =
    ok (record { jsonrpc = version; id = id; method = method; params = none })
new_request id method (some (ok data')) =
    ok (record { jsonrpc = version; id = id; method = method; params = some data' })
new_request id method (some (err e)) = err (concat ("marshal params: " ∷ e ∷ []))

unfoldable pub new_response : String → Option (Result Raw) → Result Response
new_response id none = ok (record { jsonrpc = version; id = id; result = none; error = none })
new_response id (some (ok data')) =
    ok (record { jsonrpc = version; id = id; result = some data'; error = none })
new_response id (some (err e)) = err (concat ("marshal result: " ∷ e ∷ []))

unfoldable pub new_error : String → ℤ → String → Response
new_error id code message = record {
  jsonrpc = version;
  id = id;
  result = none;
  error = some (record { code = code; message = message; info = none });
}
