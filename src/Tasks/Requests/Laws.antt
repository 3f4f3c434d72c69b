-- ===== src/Tasks/Requests/Laws.antt =====
-- What the parsers of task requests accept.
use cpp_mcp_sdk.Base.{String, ◌≡◌, ◌≢◌, arith}
use cpp_mcp_sdk.Jsonrpc.Json.{JsonApi}
use cpp_mcp_sdk.Jsonrpc.Messages.{Request}
use cpp_mcp_sdk.Tasks.Requests.{value, parse_task_id_from_request_params}

module _ {J : Type 0} (api : JsonApi J) where
  -- A task id that is accepted is not empty.
  pub parse_task_id-ne_empty :
      (request : Request J) (id : String)
      → parse_task_id_from_request_params api request ≡ value id
      → id ≢ ""
  unfolding parse_task_id_from_request_params
  parse_task_id-ne_empty request id h = ground arith
