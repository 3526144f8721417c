-- ===== src/Api/Auth.antt =====
-- apps/api/src/auth.ts: who sends a request, and the token that lets a user into the checkout. JSON
-- Web Tokens are a parameter, with what the documentation of fast-jwt promises.
pub mod Tokens
pub mod Examples
use antretix.Common.{
  ℕ, ◌+◌, ◌*◌, ◌/◌, ◌<◌, ◌≡◌, ◌≢◌, Bool, true, false, not, ◌||◌, Option, none, some, List, [], ◌∷◌,
  ◌==◌, if◌then◌else◌, ◌>>=◌,
}
use antretix.Common.Int.{ℤ, pos, negsuc, ltb_ℤ}
use antretix.Shared.Errors.{
  Outcome, returned, thrown, failed, unauthorized, forbidden, queue_token_required,
}
use antretix.Core.Queue.{QueueTokenClaims}

pub data Role : Type 0 where
  customer admin : Role

pub record AuthUser : Type 0 where
  pub sub : ℕ
  pub email : ℕ
  pub name : ℕ
  pub role : Role

-- The claim `typ`: the word "queue", or another.
pub data TokenType : Type 0 where
  queue : TokenType
  other_type : ℕ → TokenType

-- The claims of a token that the schemas read. `exp` is in seconds.
pub record Payload : Type 0 where
  pub sub : Option ℕ
  pub email : Option ℕ
  pub name : Option ℕ
  pub role : Option Role
  pub eid : Option ℕ
  pub typ : Option TokenType
  pub exp : Option ℤ

-- createSigner and createVerifier at a key, with the time in milliseconds: a token that was signed
-- with the same key gives its claims back until `exp` and an error afterwards.
pub record Jwt : Type 1 where
  pub Token : Type 0
  pub sign : ℕ → Payload → Token
  pub verify : ℕ → ℕ → Token → Option Payload
  pub verify-sign :
      (key now : ℕ) (payload : Payload) (exp : ℕ)
      → payload.exp ≡ some (pos exp)
      → now < exp * 1000
      → verify key now (sign key payload) ≡ some payload
  pub verify_expired :
      (key now : ℕ) (payload : Payload) (exp : ℕ)
      → payload.exp ≡ some (pos exp)
      → exp * 1000 < now
      → verify key now (sign key payload) ≡ none

-- authUserSchema; the identifier is not the empty text, which no number stands for.
abbrev pub parse_auth_user : Payload → Option AuthUser
parse_auth_user p = do
  sub ← p.sub
  email ← p.email
  name ← p.name
  role ← p.role
  some (record { sub = sub; email = email; name = name; role = role })

-- Math.floor(ms / 1000)
abbrev pub floor_seconds : ℤ → ℤ
floor_seconds (pos n) = pos (n / 1000)
floor_seconds (negsuc n) = negsuc (n / 1000)

-- seconds * 1000
abbrev pub milliseconds : ℤ → ℤ
milliseconds (pos n) = pos (n * 1000)
milliseconds (negsuc n) = negsuc (n * 1000 + 999)

abbrev pub queue_payload : QueueTokenClaims → Payload
queue_payload claims = record {
  sub = some claims.user_id;
  email = none;
  name = none;
  role = none;
  eid = some claims.event_id;
  typ = some TokenType.queue;
  exp = some (floor_seconds claims.expires_at_ms);
}

abbrev as_queue_type : TokenType → Option Bool
as_queue_type TokenType.queue = some true
as_queue_type (TokenType.other_type w) = none

-- queueClaimsSchema, and the claims that it gives.
abbrev pub parse_queue_claims : Payload → Option QueueTokenClaims
parse_queue_claims p = do
  user ← p.sub
  event ← p.eid
  typ ← p.typ
  is_queue ← as_queue_type typ
  exp ← p.exp
  some (record { user_id = user; event_id = event; expires_at_ms = milliseconds exp })

-- The header Authorization.
pub data Authorization (T : Type 0) : Type 0 where
  no_header another_scheme : Authorization T
  bearer : T → Authorization T

-- The header X-Queue-Token: it may come more than once, and may be empty.
pub data TokenHeader (T : Type 0) : Type 0 where
  absent blank : TokenHeader T
  once : T → TokenHeader T
  several : List (Option T) → TokenHeader T

abbrev bearer_token : {T : Type 0} → Authorization T → Option T
bearer_token (bearer t) = some t
bearer_token _ = none

-- Array.isArray(header) ? header[0] : header, and not the empty text.
abbrev pub queue_token : {T : Type 0} → TokenHeader T → Option T
queue_token absent = none
queue_token blank = none
queue_token (once t) = some t
queue_token (several []) = none
queue_token (several (t ∷ ts)) = t

-- token ?? access_token, the latter only where a query may carry it
abbrev token_or_query : {T : Type 0} → Option T → Bool → Option T → Option T
token_or_query (some t) allowed query = some t
token_or_query none true query = query
token_or_query none false query = none

unfoldable pub require_user : Option AuthUser → Outcome AuthUser
require_user none = thrown unauthorized
require_user (some user) = returned user

admin_only : AuthUser → Role → Outcome AuthUser
admin_only user Role.admin = returned user
admin_only user Role.customer = thrown forbidden

unfoldable pub require_admin : Option AuthUser → Outcome AuthUser
unfolding require_user admin_only
require_admin auth = elim (require_user auth) [
  | returned user ↦ admin_only user user.role
  | thrown e ↦ thrown e
  | failed ↦ failed
]

abbrev pub for_checkout : Option QueueTokenClaims → ℕ → ℕ → Outcome QueueTokenClaims
for_checkout none event user = thrown queue_token_required
for_checkout (some claims) event user =
    if not (claims.event_id == event) || not (claims.user_id == user)
    then thrown queue_token_required
    else returned claims

module _ (J : Jwt) where
  open J use {Token, sign, verify}

  unfoldable pub read_auth_user :
      ℕ → ℕ → Authorization Token → Bool → Option Token → Option AuthUser
  read_auth_user key now header allow_query access_token = do
    token ← token_or_query (bearer_token header) allow_query access_token
    payload ← verify key now token
    parse_auth_user payload

  unfoldable pub sign_queue_token : ℕ → QueueTokenClaims → Token
  sign_queue_token key claims = sign key (queue_payload claims)

  unfoldable pub verify_queue_token : ℕ → ℕ → Token → Option QueueTokenClaims
  verify_queue_token key now token = do payload ← verify key now token; parse_queue_claims payload

  unfoldable pub require_queue_token : ℕ → ℕ → TokenHeader Token → ℕ → ℕ → Outcome QueueTokenClaims
  unfolding verify_queue_token
  require_queue_token key now header event user = elim (queue_token header) [
    | none ↦ thrown queue_token_required
    | some token ↦ for_checkout (verify_queue_token key now token) event user
  ]
