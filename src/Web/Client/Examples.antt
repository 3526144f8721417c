-- ===== src/Web/Client/Examples.antt =====
-- A page of account 12, and the theorem at its question for the state.
use antretix.Common.{ℕ, Bool, ◌+◌, ◌*◌, ◌≡◌, refl, Option, none, some}
use antretix.Shared.Constants.{QueueStatus}
use antretix.Shared.Eta.Examples.{thousandths}
use antretix.Redis.Memory.{memory}
use antretix.Lua.Queue.Examples.{room}
use antretix.Core.Events.{EventMeta}
use antretix.Core.Events.Examples.{meta}
use antretix.Core.Queue.{QueueTokenClaims}
use antretix.Api.Auth.{AuthUser, Role}
use antretix.Shared.Json.{Value, text, number, bool, object, Text, Members, Zod}
use antretix.Api.Replies.{status_body, Json, reply}
use antretix.Api.Routes.Waiting.{get_status}
use antretix.Web.Client.{fetch_queue_state}
use antretix.Web.Client.Reading.{seen, fetch_queue_state-get_status}

-- Bodies as they are before they become text.
abbrev tree : Json ℕ
tree = record {
  Body = Value ℕ;
  stringify = λ v. v;
  parse = λ v. some v;
  parse-stringify = λ v. refl;
}

-- The checks of Zod on these values.
abbrev read_text : Option (Value ℕ) → Option (Text ℕ)
read_text (some (text t)) = some t
read_text _ = none

abbrev read_number : Option (Value ℕ) → Option ℕ
read_number (some (number n)) = some n
read_number _ = none

abbrev read_bool : Option (Value ℕ) → Option Bool
read_bool (some (bool b)) = some b
read_bool _ = none

abbrev read_object : Option (Value ℕ) → Option (Members ℕ)
read_object (some (object ms)) = some ms
read_object _ = none

abbrev zod : Zod ℕ
zod = record {
  as_string = read_text;
  as_number = read_number;
  as_boolean = read_bool;
  as_object = read_object;
  as_string_text = λ t. refl;
  as_number_number = λ n. refl;
  as_boolean_bool = λ b. refl;
  as_object_object = λ ms. refl;
}

abbrev sign : QueueTokenClaims → ℕ
sign claims = claims.user_id * 100 + claims.event_id

abbrev buyer : AuthUser
buyer = record { sub = 12; email = 0; name = 0; role = Role.customer }

abbrev events : ℕ → Option EventMeta
events e = some meta

fetch_queue_state-get_status_example :
    let outcome =
      (get_status thousandths memory sign events
        (room QueueStatus.sold_out)
        (some 1)
        (some buyer)
        500).0 in
    fetch_queue_state zod tree (some (reply tree status_body outcome)) ≡ seen outcome
fetch_queue_state-get_status_example =
    fetch_queue_state-get_status zod tree thousandths memory sign events (room QueueStatus.sold_out)
      (some 1) (some buyer) 500
