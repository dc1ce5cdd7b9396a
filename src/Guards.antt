-- ===== src/Guards.antt =====
-- gorouter/internal/middleware/auth.go: `RequireAuth` and `RequireAdmin`, with the library of JWT as in Sessions. A
-- header that is not set is the empty text.
use Prim.Native.Char.{code}
use yi_api_proxy.Base.{
  ℕ, ◌≡◌, refl, ap, String, str_eq, eq_iff, sym, ◌∙◌, ◌⊎◌, Bool, false, true, Option, none, some,
  if◌then◌else◌, ◌==◌, Bool-cases, inl, inr,
}
use yi_api_proxy.Base.Assoc.{lookup}
use yi_api_proxy.UserCombos.{UserContext}
use yi_api_proxy.Sessions.{Jwt, MapClaims, key_for}

-- The answer of a guard: a status with an error, or the request passed on with its user.
pub data Admission : Type 0 where
  denied : ℕ → String → Admission
  passed : UserContext → Admission

-- `strings.HasPrefix` and `strings.TrimPrefix`: the rest of a text that begins so.
abbrev pub cut_prefix : String → String → Option String
cut_prefix String.[] s = some s
cut_prefix (String.◌∷◌ c p) String.[] = none
cut_prefix (String.◌∷◌ c p) (String.◌∷◌ d s) =
    let rest = cut_prefix p s in if code c == code d then rest else none

abbrev pub or_cookie : Option String → Option String → Option String
or_cookie none cookie = cookie
or_cookie (some token) cookie = some token

-- The token of the header, or else that of the cookie.
unfoldable pub token_value : String → Option String → Option String
token_value header cookie = or_cookie (cut_prefix "Bearer " header) cookie

-- claims[key].(string), with the empty text for a failed assertion.
abbrev pub text_or_empty : Option (Option String) → String
text_or_empty none = ""
text_or_empty (some none) = ""
text_or_empty (some (some s)) = s

abbrev pub claim : String → MapClaims → String
claim key m = text_or_empty (lookup key m)

abbrev pub context_of : MapClaims → UserContext
context_of m = record {
  user_id = claim "user_id" m;
  email = claim "email" m;
  role = claim "role" m;
}

abbrev pub admit_claims : Option MapClaims → Admission
admit_claims none = denied 401 "Invalid token claims"
admit_claims (some m) = passed (context_of m)

-- err != nil || !token.Valid
abbrev pub admit_parsed : Option (Option MapClaims × Bool) → Admission
admit_parsed none = denied 401 "Invalid auth token"
admit_parsed (some (claims, valid)) =
    if valid then admit_claims claims else denied 401 "Invalid auth token"

module _ (jwt : Jwt) (now : ℕ) (secret : String) where
  unfoldable pub admit_token : Option String → Admission
  admit_token none = denied 401 "Missing auth token"
  admit_token (some token) = admit_parsed (jwt.parse_map now token (key_for secret))

  unfoldable pub require_auth : String → Option String → Admission
  unfolding admit_token token_value
  require_auth header cookie = admit_token (token_value header cookie)

-- On the user of the context, none for a request that no `RequireAuth` has passed.
unfoldable pub require_admin : Option UserContext → Admission
require_admin none = denied 401 "Unauthorized"
require_admin (some user) =
    if str_eq user.role "admin" then passed user else denied 403 "Admin access required"

unfoldable pub then_admin : Admission → Admission
unfolding require_admin
then_admin (denied status message) = denied status message
then_admin (passed user) = require_admin (some user)

-- The two guards of a route of the administrators.
unfoldable pub admin_route : Jwt → ℕ → String → String → Option String → Admission
unfolding require_auth then_admin
admin_route jwt now secret header cookie = then_admin (require_auth jwt now secret header cookie)

-- The value of a claim: its text, or the empty text where the claims have no text of that name.
abbrev pub IsClaim : String → MapClaims → String → Type 0
IsClaim key m s =
    (lookup key m ≡ some (some s))
    ⊎ ((s ≡ "") × ((lookup key m ≡ none) ⊎ (lookup key m ≡ some none)))

claim-IsClaim : (key : String) (m : MapClaims) → IsClaim key m (claim key m)
claim-IsClaim key m = by_value (lookup key m) refl
  where
    by_value :
        (o : Option (Option String))
        → lookup key m ≡ o
        → IsClaim key m (text_or_empty (lookup key m))
    by_value none e = rw e (inr (refl, inl refl))
    by_value (some none) e = rw e (inr (refl, inr refl))
    by_value (some (some s)) e = rw e (inl refl)

module _ (jwt : Jwt) (now : ℕ) (secret : String) where
  -- What a request that passed both guards carried: a token that parses and is valid, with claims that say the role
  -- "admin", and from which the user's id and address are.
  abbrev pub IsAdminToken : Option String → UserContext → Type 0
  IsAdminToken none user = ⊥
  IsAdminToken (some token) user =
      (m : MapClaims) × (jwt.parse_map now token (key_for secret) ≡ some (some m, true))
      × IsClaim "user_id" m user.user_id
      × IsClaim "email" m user.email
      × (lookup "role" m ≡ some (some "admin"))
      × (user.role ≡ "admin")

  -- The request is passed on with the user of such a token, or denied, and then its token is none such.
  abbrev pub IsDecided : Option String → Admission → Type 0
  IsDecided token a =
      ((user : UserContext) × (a ≡ passed user) × IsAdminToken token user)
      ⊎ ((status : ℕ) × (message : String) × (a ≡ denied status message)
          × ((user : UserContext) → IsAdminToken token user → ⊥))

  admin_role :
      (m : MapClaims) (o : Option (Option String))
      → lookup "role" m ≡ o
      → text_or_empty o ≡ "admin"
      → lookup "role" m ≡ some (some "admin")
  admin_role m none e h = absurd (clash ((eq_iff "" "admin").1 h))
    where
      clash : false ≡ true → ⊥
      clash g = cc
  admin_role m (some none) e h = absurd (clash ((eq_iff "" "admin").1 h))
    where
      clash : false ≡ true → ⊥
      clash g = cc
  admin_role m (some (some s)) e h = e ∙ ap (λ t. some (some t)) h

  IsDecided-map :
      (token : String) (m : MapClaims)
      → jwt.parse_map now token (key_for secret) ≡ some (some m, true)
      → IsDecided (some token) (require_admin (some (context_of m)))
  unfolding require_admin
  IsDecided-map token m v = elim (Bool-cases (str_eq (claim "role" m) "admin")) [
    | inl e ↦
        let role : claim "role" m ≡ "admin" = (eq_iff (claim "role" m) "admin").0 e in
        rw e (
          inl (
            context_of m,
            refl,
            (
              m,
              v,
              claim-IsClaim "user_id" m,
              claim-IsClaim "email" m,
              admin_role m (lookup "role" m) refl role,
              role,
            ),
          ))
    | inr e ↦ rw e (inr (403, "Admin access required", refl, λ user t. other_role e user t))
  ]
    where
      clash : true ≡ false → ⊥
      clash h = cc

      map_or : Option (Option MapClaims × Bool) → MapClaims
      map_or none = m
      map_or (some (none, valid)) = m
      map_or (some (some n, valid)) = n

      other_role :
          str_eq (claim "role" m) "admin" ≡ false
          → (user : UserContext) → IsAdminToken (some token) user
          → ⊥
      other_role e user t =
          let same : t.0 ≡ m = ap map_or (sym t.1 ∙ v) in
          let role : claim "role" m ≡ "admin" =
            ap (claim "role") (sym same) ∙ ap text_or_empty t.4 in
          clash (sym ((eq_iff (claim "role" m) "admin").1 role) ∙ e)

  -- A token that does not parse to valid claims is none of an administrator.
  denied_parsed :
      (token message : String) (p : Option (Option MapClaims × Bool))
      → ((m : MapClaims) → p ≡ some (some m, true) → ⊥)
      → jwt.parse_map now token (key_for secret) ≡ p
      → IsDecided (some token) (denied 401 message)
  denied_parsed token message p invalid v =
      inr (401, message, refl, λ user t. invalid t.0 (sym v ∙ t.1))

  IsDecided-parsed :
      (token : String) (p : Option (Option MapClaims × Bool))
      → jwt.parse_map now token (key_for secret) ≡ p
      → IsDecided (some token) (then_admin (admit_parsed p))
  unfolding then_admin require_admin
  IsDecided-parsed token none v = denied_parsed token "Invalid auth token" none (λ m h. cc) v
  IsDecided-parsed token (some (claims, false)) v =
      denied_parsed token "Invalid auth token" (some (claims, false)) (λ m h. cc) v
  IsDecided-parsed token (some (none, true)) v =
      denied_parsed token "Invalid token claims" (some (none, true)) (λ m h. cc) v
  IsDecided-parsed token (some (some m, true)) v = IsDecided-map token m v

  IsDecided-token :
      (token : Option String) → IsDecided token (then_admin (admit_token jwt now secret token))
  unfolding admit_token then_admin
  IsDecided-token none = inr (401, "Missing auth token", refl, λ user t. t)
  IsDecided-token (some token) =
      IsDecided-parsed token (jwt.parse_map now token (key_for secret)) refl

  -- Behind `RequireAuth` and `RequireAdmin` a request is passed on exactly if it carries a token, in the header or else
  -- in the cookie, that `jwt.Parse` takes for valid at that time under the secret, and HMAC only, with a map of claims
  -- that says the role "admin"; the handler then sees that role and the user's id and address of the claims,
  -- the empty text for one that is no text. Any other request is denied.
  pub admin_route_lem :
      (header : String) (cookie : Option String)
      → IsDecided (token_value header cookie) (admin_route jwt now secret header cookie)
  unfolding admin_route require_auth
  admin_route_lem header cookie = IsDecided-token (token_value header cookie)
