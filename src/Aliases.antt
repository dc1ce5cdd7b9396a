-- ===== src/Aliases.antt =====
-- gorouter/internal/models/alias.go: `ModelResolver`, on the aliases of the JSON store. A model's name is
-- its bytes.
pub mod Shadowed
use yi_api_proxy.Base.{
  ℕ, ◌+◌, ◌==◌, String, str_eq, Bool, true, false, Option, none, some, List, [], ◌∷◌, ◌++◌,
  if◌then◌else◌, leb, ◌&&◌, ◌||◌, map, anyb,
}
use Prim.Native.Char.{code}
use yi_api_proxy.Base.Text.{codes, has_prefix}
use yi_api_proxy.Db.Types.{ModelAlias}
use yi_api_proxy.Db.Table.{Table}
use yi_api_proxy.Db.Aliases.{find_alias, find_by_user, list_global}

-- `strings.ToLower`, for ASCII.
abbrev pub lower : ℕ → ℕ
lower c = if leb 65 c && leb c 90 then c + 32 else c

unfoldable pub infer_provider : String → String
infer_provider model_name =
    let name = map lower (codes model_name) in
    if has_prefix name (codes "gpt-")
    then "openai"
    else if has_prefix name (codes "glm-")
    then "glm"
    else if has_prefix name (codes "claude-")
    then "anthropic"
    else if has_prefix name (codes "gemini-")
    then "google"
    else if has_prefix name (codes "mistral-")
    then "mistral"
    else if has_prefix name (codes "llama-")
    then "ollama"
    else if has_prefix name (codes "qwen-")
    then "qwen"
    else ""

-- The part before the first `/`: `strings.SplitN(modelName, "/", 2)[0]`.
abbrev pub before_slash : String → String
before_slash String.[] = ""
before_slash (String.◌∷◌ c s) =
    let rest = before_slash s in if code c == 47 then "" else String.◌∷◌ c rest

-- The model and the provider without an alias.
unfoldable pub resolve_plain : String → String × String
unfolding infer_provider
resolve_plain model_name =
    if anyb (λ c. c == 47) (codes model_name)
    then (model_name, before_slash model_name)
    else (model_name, infer_provider model_name)

unfoldable pub resolve_alias : String → String → Option ModelAlias → String × String
unfolding resolve_plain
resolve_alias model_name user_id none = resolve_plain model_name
resolve_alias model_name user_id (some alias) =
    if str_eq alias.user_id "" || str_eq alias.user_id user_id
    then (alias.target_id, alias.provider)
    else resolve_plain model_name

unfoldable pub resolve : String → String → Table ModelAlias → String × String
unfolding resolve_alias find_alias
resolve model_name user_id t =
    if str_eq model_name ""
    then ("", "")
    else resolve_alias model_name user_id (find_alias model_name t)

unfoldable pub list_aliases : String → Table ModelAlias → List ModelAlias
unfolding list_global find_by_user
list_aliases user_id t = list_global t ++ find_by_user user_id t
