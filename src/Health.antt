-- ===== src/Health.antt =====
-- gorouter/internal/provider/health.go: `HealthMonitor`. Each check of a provider is one step: the probe
-- that its HTTP request gives is an argument, and no other write comes between its reads and its writes.
pub mod Rounds
pub mod Recovery
pub mod Failures
use yi_api_proxy.Base.{
  ℕ, ◌+◌, ◌*◌, ◌≤◌, String, str_eq, ◌≡◌, refl, Option, none, some, Bool, true, false, List, [], ◌∷◌,
  leb, ltb, if◌then◌else◌, ◌&&◌, ◌||◌, ◌==◌, not, filterb,
}
use yi_api_proxy.Base.Text.{◌+++◌, itoa}
use yi_api_proxy.Base.Int.{ℤ, pos, pos_part, ltb_ℤ, leb_ℤ, ◌+ℤ◌}
use yi_api_proxy.Db.Types.{ProviderConnection}
use yi_api_proxy.Db.Table.{Table, Write, stored, panic, find_by_id, list, after}
use yi_api_proxy.Db.Providers.{update}

-- `getDefaultURL`
unfoldable pub get_default_url : String → String
get_default_url provider =
    if str_eq provider "openai"
    then "https://api.openai.com"
    else if str_eq provider "anthropic"
    then "https://api.anthropic.com"
    else if str_eq provider "google"
    then "https://generativelanguage.googleapis.com"
    else if str_eq provider "deepseek"
    then "https://api.deepseek.com"
    else if str_eq provider "mistral"
    then "https://api.mistral.ai"
    else if str_eq provider "groq"
    then "https://api.groq.com"
    else if str_eq provider "together"
    then "https://api.together.xyz"
    else if str_eq provider "perplexity"
    then "https://api.perplexity.ai"
    else if str_eq provider "ollama"
    then "http://localhost:11434"
    else if str_eq provider "lmstudio"
    then "http://localhost:1234"
    else ""

-- What `checkProvider` meets: the secret does not decrypt (or is empty), the request fails with an error,
-- or an answer with its status and its latency.
pub data Probe : Type 0 where
  bad_secret : Probe
  unreachable : String → Probe
  answered : ℕ → ℕ → Probe

-- What it records: a failure with its message, a success with its latency.
pub data Verdict : Type 0 where
  failure : String → Verdict
  success : ℕ → Verdict

unfoldable pub verdict_of : Probe → Verdict
unfolding itoa
verdict_of bad_secret = failure "health_check: failed to decrypt secret"
verdict_of (unreachable message) = failure ("connection failed: " +++ message)
verdict_of (answered status latency) =
    if status == 401 || status == 403
    then failure ("auth failure: HTTP " +++ itoa status)
    else if leb 200 status && ltb status 300
    then success latency
    else failure ("HTTP " +++ itoa status)

abbrev pub over : ℕ → Option ℕ → Bool
over now none = false
over now (some until) = ltb until now

-- The fields that `recordSuccess` sets.
unfoldable pub succeeded : ℕ → ℕ → ProviderConnection → ProviderConnection
succeeded now latency p =
    let p' = record p { last_latency_ms = pos latency; last_error = ""; last_error_at = none } in
    if str_eq p.status "cooldown" && over now p.cooldown_until
    then record p' { status = "active"; cooldown_until = none; backoff_level = pos 0 }
    else p'

-- The fields that `recordFailure` sets; a minute for each level.
unfoldable pub failed_once : ℕ → String → ProviderConnection → ProviderConnection
failed_once now message p =
    let level = p.backoff_level +ℤ pos 1 in
    let p' = record p { last_error = message; last_error_at = some now; backoff_level = level } in
    if leb_ℤ (pos 3) level
    then record p' { status = "cooldown"; cooldown_until = some (now + pos_part level * 60) }
    else p'

unfoldable pub record_verdict : ℕ → Verdict → ProviderConnection → ProviderConnection
unfolding succeeded failed_once
record_verdict now (success latency) p = succeeded now latency p
record_verdict now (failure message) p = failed_once now message p

-- The base URL that is probed.
abbrev pub probe_url : ProviderConnection → String
probe_url p = if str_eq p.base_url "" then get_default_url p.provider else p.base_url

unfoldable pub write_verdict :
    ℕ → Verdict → Table ProviderConnection → Option ProviderConnection → Write ProviderConnection
unfolding record_verdict update
write_verdict now v t none = stored t
write_verdict now v t (some p) = update now (record_verdict now v p) t

-- `checkProvider` on the connection `p` that `List` gave; `recordSuccess` and `recordFailure` read it
-- again by its id.
unfoldable pub check_provider :
    ℕ → Probe → ProviderConnection → Table ProviderConnection → Write ProviderConnection
unfolding write_verdict verdict_of
check_provider now probe p t =
    if str_eq (probe_url p) ""
    then stored t
    else write_verdict now (verdict_of probe) t (find_by_id p.id t)

-- `checkAllProviders` looks only at those.
unfoldable pub checked : List ProviderConnection → List ProviderConnection
checked providers = filterb (λ p. str_eq p.status "active") providers

unfoldable pub check_all :
    (ProviderConnection → ℕ × Probe)
    → List ProviderConnection
    → Table ProviderConnection
    → Table ProviderConnection
unfolding check_provider
check_all probes [] t = t
check_all probes (p ∷ ps) t =
    check_all probes ps (after t (check_provider (probes p).0 (probes p).1 p t))

-- One tick of the monitor, each provider checked in some order.
unfoldable pub tick :
    (ProviderConnection → ℕ × Probe) → Table ProviderConnection → Table ProviderConnection
unfolding check_all checked
tick probes t = check_all probes (checked (list t)) t
