-- ===== src/Api/Routes/Accounts/Entering.antt =====
-- Who has registered can log in, with the password, and is then known to the API.
use antretix.Common.{
  ℕ, ◌+◌, ◌*◌, ◌/◌, ◌<◌, ◌≡◌, ◌≢◌, ◌⊎◌, inl, inr, refl, sym, Bool, true, false, Option, some, List,
  ◌∷◌, arith, All, Bool-cases, Option-cases,
}
use antretix.Shared.Errors.{Outcome, returned, thrown, unauthorized}
use antretix.Database.Passwords.{Chars, to_hex, hash_password, verify_password}
use antretix.Database.Passwords.Checking.{verify_password-hash_password}
use antretix.Api.Auth.{AuthUser, Role, Jwt, bearer, read_auth_user}
use antretix.Api.Routes.Accounts.{
  User, RegisterInput, LoginInput, to_auth_user, find_user, auth_payload, register, login, signed,
  login_as, register_checked,
}

module _ (J : Jwt) where
  open J use {Token, sign, verify, verify-sign}

  -- A login token in the header Authorization, until it ends, says who its owner is.
  pub read_auth_user-sign :
      (key now later : ℕ) (user : AuthUser) (query : Bool) (access_token : Option Token)
      → later < (now / 1000 + 604800) * 1000
      → read_auth_user J key later (bearer (sign key (auth_payload user now))) query access_token
        ≡ some user
  unfolding read_auth_user
  read_auth_user-sign key now later user query access_token h =
      rw (verify-sign key later (auth_payload user now) (now / 1000 + 604800) refl h) refl

  module _ (scrypt : Chars → Chars → List ℕ) (to_lower : ℕ → ℕ)
      (bytes : (password salt : Chars) → All (λ b. b < 256) (scrypt password salt)) where
    -- What a registration that succeeds has put into the table.
    register-row :
        (others : List User → List User) (key : ℕ) (users : List User) (input : RegisterInput)
        (address new_id : ℕ) (salt : List ℕ) (now : ℕ) (answer : Token × AuthUser)
        → let (outcome, users') =
            register J scrypt to_lower others key users (some input) address new_id salt now in
          let row : User = record {
            id = new_id;
            email = to_lower input.email;
            name = input.name;
            role = Role.customer;
            password_hash = some (hash_password scrypt input.password salt);
            signup_ip = some address;
          } in
          outcome ≡ returned answer
          → (users' ≡ row ∷ others users) × (answer ≡ signed J scrypt to_lower key now row)
    unfolding register register_checked
    register-row others key users input address new_id salt now answer h =
        let email = to_lower input.email in
        elim (Option-cases (find_user users email)) [
          | inr (old, taken) ↦ ground arith
          | inl free ↦ elim (Option-cases (find_user (others users) email)) [
            | inr (old, taken) ↦ ground arith
            | inl still ↦ ground arith
          ]
        ]

    -- How a login ends: with a token of the user, or not.
    abbrev pub Enters : ℕ → ℕ → AuthUser → Bool → Outcome (Token × AuthUser) → Type 0
    Enters key now user true outcome = outcome ≡ returned (sign key (auth_payload user now), user)
    Enters key now user false outcome = outcome ≡ thrown unauthorized

    login_registered :
        (key : ℕ) (users : List User) (row : User) (body : LoginInput) (stored : Chars) (now : ℕ)
        → row.email ≡ to_lower body.email
        → row.password_hash ≡ some stored
        → Enters key now
            (to_auth_user row)
            (verify_password scrypt body.password stored)
            (login J scrypt to_lower key (row ∷ users) (some body) now)
    unfolding login login_as
    login_registered key users row body stored now same hashed =
        let found : find_user (row ∷ users) (to_lower body.email) ≡ some row =
          ground (arith, same) in
        elim (Bool-cases (verify_password scrypt body.password stored)) [
          | inl right ↦ rw (right) (ground (arith, found, hashed))
          | inr wrong ↦ rw (wrong) (ground (arith, found, hashed))
        ]

    -- Once a registration has succeeded, whatever other requests did to the table while the password
    -- was hashed: a login with the same e-mail address, in whatever case, gives a token for the user
    -- that the registration answered when scrypt makes of the password what it made of the one
    -- registered, with the salt that was drawn, and is refused as UNAUTHORIZED otherwise.
    pub login-register :
        (others : List User → List User) (key : ℕ) (users : List User) (input : RegisterInput)
        (address new_id : ℕ) (salt : List ℕ) (now later : ℕ) (answer : Token × AuthUser)
        (body : LoginInput)
        → All (λ b. b < 256) salt
        → to_lower body.email ≡ to_lower input.email
        → let (outcome, users') =
            register J scrypt to_lower others key users (some input) address new_id salt now in
          outcome ≡ returned answer
          → let result = login J scrypt to_lower key users' (some body) later in
            ((scrypt body.password (to_hex salt) ≡ scrypt input.password (to_hex salt))
              × (result ≡ returned (sign key (auth_payload answer.1 later), answer.1)))
            ⊎ ((scrypt body.password (to_hex salt) ≢ scrypt input.password (to_hex salt))
                × (result ≡ thrown unauthorized))
    login-register others key users input address new_id salt now later answer body h same done =
        let (table, known) =
          register-row others key users input address new_id salt now answer done in
        let stored = hash_password scrypt input.password salt in
        let row : User = record {
          id = new_id;
          email = to_lower input.email;
          name = input.name;
          role = Role.customer;
          password_hash = some stored;
          signup_ip = some address;
        } in
        let entered = login_registered key (others users) row body stored later (sym same) refl in
        let checked =
          verify_password-hash_password scrypt bytes input.password body.password salt h in
        elim (Bool-cases (verify_password scrypt body.password stored)) [
          | inl right ↦
              let inside = rw (right) at entered in inl (checked.0 right, rw (table, known) inside)
          | inr wrong ↦
              let outside = rw (wrong) at entered in
              inr (λ e. let ok = checked.1 e in cc, rw (table) outside)
        ]
