-- ===== src/Jsonrpc/Messages.antt =====
-- include/mcp/jsonrpc (types, request, notification, responses, request_context), the error codes of
-- include/mcp/sdk/errors.hpp, and the factories of src/jsonrpc/messages.cpp.
use cpp_mcp_sdk.Base.{String, Bool, false, Option, none, some, String-discrete}
use cpp_mcp_sdk.Base.Int.{ℤ, negsuc, ℤ-discrete}

pub data RequestId : Type 0 where
  integer : ℤ → RequestId
  text : String → RequestId

unfoldable pub RequestId-discrete : Discrete RequestId
unfolding ℤ-discrete String-discrete
RequestId-discrete = hlevel (ℤ-discrete, String-discrete)

pub record RequestContext : Type 0 where
  pub protocol_version : String
  pub session_id : Option String
  pub auth_context : Option String

pub record Request (J : Type 0) : Type 0 where
  pub id : RequestId
  pub method : String
  pub params : Option J

pub record Notification (J : Type 0) : Type 0 where
  pub method : String
  pub params : Option J

pub data JsonRpcErrorCode : Type 0 where
  parse_error invalid_request method_not_found invalid_params internal_error : JsonRpcErrorCode
  resource_not_found url_elicitation_required : JsonRpcErrorCode

-- The wire value of a code. `negsuc n` is -(n + 1).
unfoldable pub code_value : JsonRpcErrorCode → ℤ
code_value parse_error = negsuc 32699
code_value invalid_request = negsuc 32599
code_value method_not_found = negsuc 32600
code_value invalid_params = negsuc 32601
code_value internal_error = negsuc 32602
code_value resource_not_found = negsuc 32001
code_value url_elicitation_required = negsuc 32041

pub record JsonRpcError (J : Type 0) : Type 0 where
  pub code : ℤ
  pub message : String
  pub data_ : Option J

pub record SuccessResponse (J : Type 0) : Type 0 where
  pub id : RequestId
  pub result : J

pub record ErrorResponse (J : Type 0) : Type 0 where
  pub id : Option RequestId
  pub has_unknown_id : Bool
  pub error : JsonRpcError J

pub data Response (J : Type 0) : Type 0 where
  success : SuccessResponse J → Response J
  error : ErrorResponse J → Response J

module _ {J : Type 0} where
  abbrev pub make_json_rpc_error : JsonRpcErrorCode → String → Option J → JsonRpcError J
  make_json_rpc_error code message d = record {
    code = code_value code;
    message = message;
    data_ = d;
  }

  abbrev pub make_error_response : JsonRpcError J → Option RequestId → Response J
  make_error_response e id = error (record { id = id; has_unknown_id = false; error = e })

  -- A response with an error that carries no data, for a request.
  abbrev pub error_reply : JsonRpcErrorCode → String → RequestId → Response J
  error_reply code message id =
      make_error_response (make_json_rpc_error code message none) (some id)

abbrev pub method_not_found_message : String
method_not_found_message = "Method not found"
