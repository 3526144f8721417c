-- ===== src/Api/Routes/Accounts/Examples.antt =====
-- An account with a toy in the place of scrypt, and the theorems at concrete inputs.
use antretix.Common.{ℕ, ◌%◌, ◌<◌, ◌≡◌, ◌≢◌, ◌⊎◌, refl, some, List, [], ◌∷◌, sum, All, arith}
use antretix.Shared.Errors.{returned, thrown, unauthorized}
use antretix.Database.Passwords.{Chars, to_hex}
use antretix.Api.Auth.{AuthUser, Role}
use antretix.Api.Auth.Examples.{open_jwt}
use antretix.Api.Routes.Accounts.{User, RegisterInput, LoginInput, auth_payload, register, login}
use antretix.Api.Routes.Accounts.Entering.{login-register}

abbrev toy : Chars → Chars → List ℕ
toy password salt = (sum password % 256) ∷ (sum salt % 256) ∷ []

toy_bytes : (password salt : Chars) → All (λ b. b < 256) (toy password salt)
toy_bytes password salt = (omega arith, (omega arith, tt))

abbrev same_case : ℕ → ℕ
same_case email = email

abbrev input : RegisterInput
input = record { email = 9; name = 3; password = 112 ∷ 119 ∷ [] }

abbrev right : LoginInput
right = record { email = 9; password = 112 ∷ 119 ∷ [] }

abbrev user : AuthUser
user = record { sub = 31; email = 9; name = 3; role = Role.customer }

abbrev alone : List User → List User
alone users = users

abbrev table : List User
table = (register open_jwt toy same_case alone 5 [] (some input) 80 31 (1 ∷ 200 ∷ []) 700).1

login-register_example :
    let result = login open_jwt toy same_case 5 table (some right) 900 in
    let salt = to_hex (1 ∷ 200 ∷ []) in
    ((toy right.password salt ≡ toy input.password salt)
      × (result ≡ returned ((5, auth_payload user 900), user)))
    ⊎ ((toy right.password salt ≢ toy input.password salt) × (result ≡ thrown unauthorized))
unfolding register
login-register_example =
    login-register open_jwt toy same_case toy_bytes alone 5 [] input 80 31 (1 ∷ 200 ∷ []) 700 900
      ((5, auth_payload user 700), user) right (omega arith) refl refl
