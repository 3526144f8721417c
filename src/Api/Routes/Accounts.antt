-- ===== src/Api/Routes/Accounts.antt =====
-- apps/api/src/routes/auth.ts: registration and login, and signAuthToken of apps/api/src/auth.ts. The
-- schemas, toLowerCase and scrypt are parameters, and the identifier and the salt are drawn.
pub mod Entering
pub mod Examples
use antretix.Common.{
  ℕ, ◌+◌, ◌/◌, ◌==◌, Bool, true, false, Option, none, some, List, [], ◌∷◌, find, if◌then◌else◌,
}
use antretix.Common.Int.{pos}
use antretix.Shared.Errors.{
  Outcome, returned, thrown, failed, parsed, conflict, unauthorized, ◌>>=◌,
}
use antretix.Database.Passwords.{Chars, hash_password, verify_password}
use antretix.Api.Auth.{AuthUser, Role, Payload, Jwt, require_user}

-- A row of the table User.
pub record User : Type 0 where
  pub id : ℕ
  pub email : ℕ
  pub name : ℕ
  pub role : Role
  pub password_hash : Option Chars
  pub signup_ip : Option ℕ

pub record RegisterInput : Type 0 where
  pub email : ℕ
  pub name : ℕ
  pub password : Chars

pub record LoginInput : Type 0 where
  pub email : ℕ
  pub password : Chars

abbrev pub to_auth_user : User → AuthUser
to_auth_user u = record { sub = u.id; email = u.email; name = u.name; role = u.role }

abbrev pub find_user : List User → ℕ → Option User
find_user users email = find (λ u. u.email == email) users

-- signAuthToken: the claims of a user, for seven days from now.
abbrev pub auth_payload : AuthUser → ℕ → Payload
auth_payload user now = record {
  sub = some user.sub;
  email = some user.email;
  name = some user.name;
  role = some user.role;
  eid = none;
  typ = none;
  exp = some (pos (now / 1000 + 604800));
}

-- INSERT: a row with the e-mail address that another got meanwhile breaks UNIQUE (email).
abbrev insert_user : List User → User → Outcome User × List User
insert_user users u = elim (find_user users u.email) [
  | none ↦ (returned u, u ∷ users)
  | some other ↦ (failed, users)
]

abbrev pub hash_accepts : (Chars → Chars → List ℕ) → Chars → Option Chars → Bool
hash_accepts scrypt password none = false
hash_accepts scrypt password (some stored) = verify_password scrypt password stored

module _ (J : Jwt) (scrypt : Chars → Chars → List ℕ) (to_lower : ℕ → ℕ) where
  open J use {Token, sign}

  abbrev pub signed : ℕ → ℕ → User → Token × AuthUser
  signed key now u = let user = to_auth_user u in (sign key (auth_payload user now), user)

  abbrev sign_registered : ℕ → ℕ → Outcome User × List User → Outcome (Token × AuthUser) × List User
  sign_registered key now (outcome, users) = (outcome >>= (λ u. returned (signed key now u)), users)

  -- While the password is hashed, `others` run.
  unfoldable register_checked :
      (List User → List User)
      → ℕ
      → List User
      → RegisterInput
      → ℕ
      → ℕ
      → List ℕ
      → ℕ
      → Outcome (Token × AuthUser) × List User
  register_checked others key users input address new_id salt now =
      let email = to_lower input.email in
      elim (find_user users email) [
        | some old ↦ (thrown conflict, users)
        | none ↦ sign_registered key now (
            insert_user (others users) (record {
              id = new_id;
              email = email;
              name = input.name;
              role = Role.customer;
              password_hash = some (hash_password scrypt input.password salt);
              signup_ip = some address;
            }))
      ]

  -- POST /auth/register
  unfoldable pub register :
      (List User → List User)
      → ℕ
      → List User
      → Option RegisterInput
      → ℕ
      → ℕ
      → List ℕ
      → ℕ
      → Outcome (Token × AuthUser) × List User
  unfolding register_checked
  register others key users body address new_id salt now = elim (parsed body) [
    | returned input ↦ register_checked others key users input address new_id salt now
    | thrown e ↦ (thrown e, users)
    | failed ↦ (failed, users)
  ]

  unfoldable login_as : ℕ → Option User → Chars → ℕ → Outcome (Token × AuthUser)
  login_as key none password now = thrown unauthorized
  login_as key (some u) password now =
      if hash_accepts scrypt password u.password_hash
      then returned (signed key now u)
      else thrown unauthorized

  -- POST /auth/login
  unfoldable pub login : ℕ → List User → Option LoginInput → ℕ → Outcome (Token × AuthUser)
  unfolding login_as
  login key users body now = do
    input ← parsed body
    login_as key (find_user users (to_lower input.email)) input.password now

-- GET /auth/me
unfoldable pub get_me : Option AuthUser → Outcome AuthUser
get_me auth_user = require_user auth_user
