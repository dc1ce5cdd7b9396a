-- ===== src/ApiKeys/Access.antt =====
-- gorouter/internal/middleware/apikey.go: `ExtractAPIKey`, `RequireAPIKey` and `RequireScope`. A header is
-- its bytes, "" where it is missing; the answer carries what the next handler finds in its context.
use yi_api_proxy.Base.{
  ℕ, zero, suc, ◌<◌, ◌≡◌, refl, String, str_eq, Option, none, some, List, [], ◌∷◌, ◌++◌,
  if◌then◌else◌, length, anyb, arith,
}
use yi_api_proxy.Base.Text.{codes, has_prefix, slice_from, slice_to, ◌+++◌}
use yi_api_proxy.Db.Types.{ApiKey, User, ApiKeyValidation}
use yi_api_proxy.Db.Table.{Table}
use yi_api_proxy.ApiKeys.Create.{Hasher, Result, ok, fail, panicked}
use yi_api_proxy.ApiKeys.Service.{validate_key}

unfoldable pub extract_api_key : List ℕ → List ℕ → List ℕ
extract_api_key [] x_api_key = x_api_key
extract_api_key (c ∷ auth) x_api_key =
    if has_prefix (c ∷ auth) (codes "Bearer ") then slice_from 7 (c ∷ auth) else c ∷ auth

-- What the middleware does with a request.
pub data Access : Type 0 where
  serve : ApiKeyValidation → Access
  refuse : ℕ → String → Access
  crash : Access

abbrev pub access_of : Result ApiKeyValidation → Access
access_of (ok validation) = serve validation
access_of (fail e) = refuse 401 "Invalid API key"
access_of panicked = crash

module _ (hasher : Hasher) where
  unfoldable pub check_key : ℕ → List ℕ → Table User → Table ApiKey → Access × Table ApiKey
  unfolding validate_key
  check_key now [] users t = (refuse 401 "Missing API key. Provide Authorization: Bearer <key>", t)
  check_key now (c ∷ key) users t =
      let validated = validate_key hasher now (c ∷ key) users t in
      if has_prefix (c ∷ key) (codes "sk-gorouter-")
      then (access_of validated.0, validated.1)
      else (refuse 401 "Invalid API key format", t)

  unfoldable pub require_api_key :
      ℕ → List ℕ → List ℕ → Table User → Table ApiKey → Access × Table ApiKey
  unfolding check_key extract_api_key
  require_api_key now auth x_api_key users t =
      check_key now (extract_api_key auth x_api_key) users t

-- `RequireScope` on what the context holds.
unfoldable pub require_scope : String → Option ApiKeyValidation → Access
require_scope scope none = refuse 401 "API key context missing"
require_scope scope (some validation) =
    if anyb (λ s. str_eq s scope) validation.scopes
    then serve validation
    else refuse 403 ("Insufficient scope: requires " +++ scope)

slice_short : (n : ℕ) (s : List ℕ) → length s < n → slice_to n s ≡ none
slice_short zero s h = absurd (never h)
  where
    never : length s < 0 → ⊥
    never e = omega arith
slice_short (suc n) [] h = refl
slice_short (suc n) (b ∷ s) h = rw (slice_short n s (omega arith)) refl

validate_short :
    (hasher : Hasher) (now : ℕ) (key : List ℕ) (users : Table User) (t : Table ApiKey)
    → length key < 18
    → validate_key hasher now key users t ≡ (panicked, t)
unfolding validate_key
validate_short hasher now key users t h = rw (slice_short 18 key h) refl

-- A bearer key of the right prefix with fewer than six bytes after it makes the middleware panic, whatever
-- the store holds.
pub short_key_crashes :
    (hasher : Hasher) (now : ℕ) (rest x_api_key : List ℕ) (users : Table User) (t : Table ApiKey)
    → length rest < 6
    → require_api_key hasher now (codes "Bearer sk-gorouter-" ++ rest) x_api_key users t
      ≡ (crash, t)
unfolding require_api_key check_key extract_api_key
short_key_crashes hasher now rest x_api_key users t h =
    rw (validate_short hasher now (codes "sk-gorouter-" ++ rest) users t (omega arith)) refl
