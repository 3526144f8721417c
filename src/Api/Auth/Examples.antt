-- ===== src/Api/Auth/Examples.antt =====
-- Tokens that show what was signed meet what is relied on of fast-jwt, and the theorems on queue
-- tokens at concrete inputs.
use antretix.Common.{
  ℕ, ◌*◌, ◌<◌, ◌≡◌, refl, Option, none, some, [], ◌∷◌, ltb, ◌==◌, if◌then◌else◌, arith,
}
use antretix.Common.Int.{ℤ, pos, negsuc}
use antretix.Shared.Constants.{QueueStatus}
use antretix.Shared.Errors.{returned}
use antretix.Shared.Eta.Examples.{thousandths}
use antretix.Shared.Keys
use antretix.Shared.Keys.{key_eq}
use antretix.Redis.{word, vacant}
use antretix.Redis.Memory.{Table, memory}
use antretix.Lua.Queue.Examples.{room, entry}
use antretix.Lua.Status.{status}
use antretix.Core.Events.Examples.{meta}
use antretix.Core.Queue.{QueueTokenClaims, admitted, get_queue_state}
use antretix.Api.Auth.{Jwt, Payload, once, queue_payload, sign_queue_token, require_queue_token}
use antretix.Api.Auth.Tokens.{admitted_checkout}

abbrev pub in_time : ℕ → Payload → Option ℤ → Option Payload
in_time now p none = some p
in_time now p (some (negsuc n)) = none
in_time now p (some (pos n)) = if ltb now (n * 1000) then some p else none

abbrev pub open_verify : ℕ → ℕ → ℕ × Payload → Option Payload
open_verify key now (k, p) = if key == k then in_time now p p.exp else none

pub open_sign :
    (key now : ℕ) (p : Payload) (exp : ℕ)
    → p.exp ≡ some (pos exp)
    → now < exp * 1000
    → open_verify key now (key, p) ≡ some p
open_sign key now p exp ends before = rw ends (ground arith)

pub open_expired :
    (key now : ℕ) (p : Payload) (exp : ℕ)
    → p.exp ≡ some (pos exp)
    → exp * 1000 < now
    → open_verify key now (key, p) ≡ none
open_expired key now p exp ends over = rw ends (ground arith)

abbrev pub open_jwt : Jwt
open_jwt = record {
  Token = ℕ × Payload;
  sign = λ key p. (key, p);
  verify = open_verify;
  verify-sign = open_sign;
  verify_expired = open_expired;
}

abbrev pub claims : QueueTokenClaims
claims = record { user_id = 20; event_id = 1; expires_at_ms = pos 9500 }

-- Account 20 has a session of event 1 until 9500.
abbrev pub session : Table
session k =
    if key_eq (Keys.admitted 1 20) k
    then record vacant { text = some (word 1); ttl = some 9000 }
    else if key_eq (Keys.active 1) k
    then record vacant { zset = entry 20 9500 ∷ [] }
    else room QueueStatus.open_ k

pub session-admitted :
    (get_queue_state thousandths memory (sign_queue_token open_jwt 5) session meta 20 500).0
    ≡ admitted (5, queue_payload claims) (pos 9500)
unfolding get_queue_state status sign_queue_token
session-admitted = refl

admitted_checkout_example :
    require_queue_token open_jwt 5 700 (once (5, queue_payload claims)) 1 20
    ≡ returned (record claims { expires_at_ms = pos 9000 })
admitted_checkout_example =
    admitted_checkout open_jwt thousandths memory session meta 20 500 9500 5 700 1 20 _
      session-admitted (omega arith)
