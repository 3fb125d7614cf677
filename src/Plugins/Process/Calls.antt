-- ===== src/Plugins/Process/Calls.antt =====
-- Calls of a plugin, and the messages that it sends.
pub mod Ends
pub mod Routed
pub mod Answered
use auxitalk.Base.{
  ℕ, zero, suc, ◌+◌, ◌%◌, ◌^◌, ℤ, pos, ltb_ℤ, String, Bool, true, false, List, [], ◌∷◌, Option,
  none, some, Error, Result, ok, err, ◌==◌, string_eq, not, if◌then◌else◌, concat, ltb, ◌&&◌,
}
use auxitalk.Base.Decimal.{decimal}
use auxitalk.Base.Map.{lookup, put, delete}
use auxitalk.Rpc.Protocol.{Raw, Request, Response, RpcError, new_request}
use auxitalk.Plugins.Process.{PluginProcess, ProcessSpec, err_not_running}

unfoldable pub call_id : ProcessSpec → ℕ → String
call_id spec n = concat (spec.id ∷ "-" ∷ decimal n ∷ [])

-- The first section of callWithRetry: the id of the call. Its channel is named by the same number.
unfoldable pub open_call : PluginProcess → PluginProcess × Result String
unfolding call_id
open_call p =
    let n = (p.seq + 1) % 2 ^ 64 in
    if not p.running
    then (p, err err_not_running)
    else (record p { seq = n; pending = put (call_id p.spec n) n p.pending }, ok (call_id p.spec n))

unfoldable pub delete_pending : String → PluginProcess → PluginProcess
delete_pending id p = record p { pending = delete id p.pending }

-- The end of handleMessage, for a message without a method: the channel that gets the response.
unfoldable pub take_response : String → PluginProcess → PluginProcess × Option ℕ
take_response id p = (record p { pending = delete id p.pending }, lookup id p.pending)

-- How a write to the plugin's standard input ends: it is complete, or it fails. It has no deadline,
-- and never ends if the plugin does not read and the pipe is full.
pub data Sent : Type 0 where
  delivered : Sent
  broken : Error → Sent
  stuck : Sent

-- What becomes of the request before it is waited for.
unfoldable pub send_request :
    ℤ
    → (request : Result Request) → (marshalled : Request → Result ℕ) → (write : Request → Sent)
    → Sent
send_request limit (err e) marshalled write = broken e
send_request limit (ok r) marshalled write = elim (marshalled r) [
  | err e ↦ broken e
  | ok n ↦ if ltb_ℤ limit (pos (n + 1)) then broken "payload too large" else write r
]

-- writeResponse behind the making of the response
unfoldable pub write_response :
    ℤ → (marshalled : Result ℕ) → (running : Bool) → (write : Option Error) → Option Error
write_response limit (err e) running write = some e
write_response limit (ok n) running write =
    if ltb_ℤ limit (pos (n + 1))
    then some "payload too large"
    else if running
    then write
    else some err_not_running

-- How a wait ends: the call's context is over, with its error and whether the caller's context is
-- over too, or the response is there.
pub data Waited : Type 0 where
  expired : (parent_over : Bool) → Error → Waited
  answered : Response → Waited

-- (*protocol.Error).Error
unfoldable pub rpc_error_text : (print : ℤ → String) → RpcError → Error
rpc_error_text print e = concat ("jsonrpc error " ∷ print e.code ∷ ": " ∷ e.message ∷ [])

-- resp.Result, nil or resp.Error
unfoldable pub answer_of : (print : ℤ → String) → Response → Result (Option Raw)
unfolding rpc_error_text
answer_of print r = elim r.error [ some e ↦ err (rpc_error_text print e) | none ↦ ok r.result ]

-- The method and the parameters of a call, and what it meets: what json.Marshal makes of a request
-- (its length, or an error) and how its write ends; what the others do to the process while the call
-- waits, and the end of the wait; what the others do during the back-off.
pub record Surroundings : Type 0 where
  pub method : String
  pub params : Option (Result Raw)
  pub marshalled : Request → Result ℕ
  pub write : Request → Sent
  pub wait : String → PluginProcess → PluginProcess × Waited
  pub sleep : PluginProcess → PluginProcess
  pub print : ℤ → String

-- The result of a call and the ids that it used; `none` if the fuel has run out, or if a write never
-- ends and the call does not return.
abbrev pub Called : Type 0
Called = Option (PluginProcess × (Result (Option Raw) × List String))

abbrev add_id : String → Called → Called
add_id id none = none
add_id id (some (p, (r, ids))) = some (p, (r, id ∷ ids))

unfoldable pub send_call : Surroundings → PluginProcess → String → Sent
unfolding send_request new_request
send_call s p id =
    send_request p.opts.max_payload_size (new_request id s.method s.params) s.marshalled s.write

-- callWithRetry
unfoldable pub call_with_retry : Surroundings → (fuel attempt : ℕ) → PluginProcess → Called
unfolding open_call send_call delete_pending answer_of
call_with_retry s zero attempt p = none
call_with_retry s (suc fuel) attempt p =
    let (p1, opened) = open_call p in
    elim opened [
      | err e ↦ some (p1, (err e, []))
      | ok id ↦ elim (send_call s p id) [
        | broken e ↦ some (p1, (err e, id ∷ []))
        | stuck ↦ none
        | delivered ↦
            (let (p2, ended) = s.wait id p1 in
              let again = call_with_retry s fuel (attempt + 1) (s.sleep (delete_pending id p2)) in
              elim ended [
                | answered r ↦ some (p2, (answer_of s.print r, id ∷ []))
                | expired over e ↦
                    if ltb attempt 3 && not over
                    then add_id id again
                    else some (delete_pending id p2, (err e, id ∷ []))
              ])
      ]
    ]

-- The first attempt is number 1.
unfoldable pub call : Surroundings → PluginProcess → Called
unfolding call_with_retry
call s p = call_with_retry s 3 1 p
