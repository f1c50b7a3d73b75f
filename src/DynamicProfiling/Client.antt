-- ===== src/DynamicProfiling/Client.antt =====
-- `HeartbeatClient` of gprofiler/dynamic_profiling_management/heartbeat.py: what the client remembers
-- of the commands, and what it makes of the server's answer. TLS sessions are not modelled.
pub mod History
use gprofiler.Prelude.{
  ℕ, ◌-◌, String, Bool, true, false, ◌&&◌, Option, none, some, List, [], ◌∷◌, ◌==◌,
}
use gprofiler.Prelude.Tests.{if◌then◌else◌, ltb, eqb}
use gprofiler.Prelude.Lists.{length, drop}
use gprofiler.Prelude.Python.{add}
use gprofiler.Prelude.Result.{Exn, Result, ok, err}
use gprofiler.DynamicProfiling.Json.{Json, null, obj, Fields, get, truthy}

pub record Client : Type 0 where
  pub last_command_id : Option String
  pub received_command_ids : List String
  pub executed_command_ids : List String

abbrev pub new_client : Client
new_client = record { last_command_id = none; received_command_ids = []; executed_command_ids = [] }

abbrev pub max_command_history : ℕ
max_command_history = 1000

-- The last `n` of a list: items[-n:]
abbrev pub take_last {ℓ} : {A : Type ℓ} → ℕ → List A → List A
take_last n xs = drop (length xs - n) xs

-- `order` is the order in which Python lists a set, which nothing fixes.
module _ (order : List String → List String) where
  unfoldable pub trim_set : List String → List String
  trim_set ids = take_last max_command_history (order ids)

  -- The set with one more identifier, trimmed if it is too large.
  unfoldable pub mark : String → List String → List String
  mark i ids =
      let ids' = add i ids in if ltb max_command_history (length ids') then trim_set ids' else ids'

  unfoldable pub mark_command_received : String → Client → Client
  mark_command_received i c = record c { received_command_ids = mark i c.received_command_ids }

  unfoldable pub mark_command_executed : String → Client → Client
  mark_command_executed i c = record c { executed_command_ids = mark i c.executed_command_ids }

-- How the POST ended: an exception of `requests`, or a status with the parsed body.
pub data Reply : Type 0 where
  no_answer : Exn → Reply
  answer : ℕ → Result Json → Reply

-- The command in the body of a successful answer.
unfoldable pub read_body : Result Json → Option Fields
read_body (ok (obj d)) =
    if truthy (get "success" null d) && truthy (get "profiling_command" null d)
    then some d
    else none
read_body body = none

-- Every failure is logged and gives None.
unfoldable pub send_heartbeat : Reply → Option Fields
send_heartbeat (no_answer e) = none
send_heartbeat (answer status body) = if eqb status 200 then read_body body else none
