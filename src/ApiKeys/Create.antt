-- ===== src/ApiKeys/Create.antt =====
-- gorouter/internal/apikeys/generator.go and `CreateKey` of service.go. SHA-256, base64 and bcrypt are a parameter; the
-- bytes that `rand.Read` gives, a new UUID and the clock are arguments.
use yi_api_proxy.Base.{ℕ, String, Bool, Option, none, some, List, [], ◌∷◌, ◌++◌, if◌then◌else◌, leb}
use yi_api_proxy.Base.Text.{codes, hex_encode}
use yi_api_proxy.Db.Types.{ApiKey, ApiKeyCreated, default_scopes}
use yi_api_proxy.Db.Table.{Table, Write, stored, panic}
use yi_api_proxy.Db.ApiKeys.{create, count_by_user}

-- `normalize` is SHA-256 and base64, `generate` and `compare` are bcrypt's.
pub record Hasher : Type 0 where
  pub normalize : List ℕ → List ℕ
  pub generate : List ℕ → Option String
  pub compare : String → List ℕ → Bool

module _ (hasher : Hasher) where
  unfoldable pub hash_key : List ℕ → Option String
  hash_key key = hasher.generate (hasher.normalize key)

  unfoldable pub verify_key : List ℕ → String → Bool
  verify_key key hash = hasher.compare hash (hasher.normalize key)

-- The full key, its hash and its prefix.
pub record Generated : Type 0 where
  pub full_key : List ℕ
  pub key_hash : String
  pub key_prefix : List ℕ

abbrev pub full_key_of : List ℕ → List ℕ → List ℕ
full_key_of prefix secret = codes "sk-gorouter-" ++ prefix ++ codes "_" ++ hex_encode secret

module _ (hasher : Hasher) where
  abbrev pub with_hash : List ℕ → List ℕ → Option String → Option Generated
  with_hash prefix secret none = none
  with_hash prefix secret (some hash) = some (record {
    full_key = full_key_of prefix secret;
    key_hash = hash;
    key_prefix = codes "sk-gorouter-" ++ prefix;
  })

  unfoldable pub with_secret : List ℕ → Option (List ℕ) → Option Generated
  unfolding hash_key
  with_secret prefix none = none
  with_secret prefix (some secret) =
      with_hash prefix secret (hash_key hasher (full_key_of prefix secret))

  -- `GenerateKey`: `b` and `secret` are what the two reads gave, `none` for an error.
  unfoldable pub generate_key : List ℕ → Option (List ℕ) → Option (List ℕ) → Option Generated
  unfolding with_secret
  generate_key [] none secret = none
  generate_key [] (some b) secret = with_secret (hex_encode b) secret
  generate_key (c ∷ prefix) b secret = with_secret (c ∷ prefix) secret

-- The result of a method: a value or an error, with its text without what it wraps; or a panic.
pub data Result (A : Type 0) : Type 0 where
  ok : A → Result A
  fail : String → Result A
  panicked : Result A

abbrev pub or_default : Option (List String) → List String
or_default none = default_scopes
or_default (some scopes) = scopes

-- What `CreateKey` is given by the system.
pub record Fresh : Type 0 where
  pub uuid : String
  pub b : Option (List ℕ)
  pub secret : Option (List ℕ)
  pub now : ℕ

abbrev pub new_key : Fresh → String → String → List String → Option ℕ → Generated → ApiKey
new_key fresh user_id name scopes expires_at g = record {
  id = fresh.uuid;
  user_id = user_id;
  name = name;
  key_prefix = g.key_prefix;
  key_hash = g.key_hash;
  scopes = scopes;
  status = "active";
  expires_at = expires_at;
  last_used_at = none;
  created_at = fresh.now;
  revoked_at = none;
}

abbrev pub created_of : ApiKey → List ℕ → ApiKeyCreated
created_of key full_key = record {
  id = key.id;
  key = full_key;
  name = key.name;
  key_prefix = key.key_prefix;
  scopes = key.scopes;
  expires_at = key.expires_at;
  created_at = key.created_at;
}

-- The answer once the new key is written.
abbrev pub written :
    Table ApiKey → Write ApiKey → ApiKeyCreated → Result ApiKeyCreated × Table ApiKey
written t (stored t') created = (ok created, t')
written t panic created = (panicked, t)

unfoldable pub store_key :
    Fresh
    → String
    → String
    → List String
    → Option ℕ
    → Table ApiKey
    → Option Generated
    → Result ApiKeyCreated × Table ApiKey
unfolding create
store_key fresh user_id name scopes expires_at t none = (fail "generate key", t)
store_key fresh user_id name scopes expires_at t (some g) =
    let key = new_key fresh user_id name scopes expires_at g in
    written t (create fresh.now key t) (created_of key g.full_key)

module _ (hasher : Hasher) where
  -- `CreateKey`; `none` for nil scopes.
  unfoldable pub create_key :
      Fresh
      → String
      → String
      → Option (List String)
      → Option ℕ
      → Table ApiKey
      → Result ApiKeyCreated × Table ApiKey
  unfolding count_by_user store_key generate_key
  create_key fresh user_id name scopes expires_at t =
      if leb 10 (count_by_user user_id t)
      then (fail "user has reached maximum of 10 API keys", t)
      else store_key fresh user_id name (or_default scopes) expires_at t
          (generate_key hasher [] fresh.b fresh.secret)
