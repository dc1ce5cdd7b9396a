-- ===== src/Lib.antt =====
-- A model of gorouter, an API proxy that routes chat requests of its users to providers of language models.
--
-- The program's parts and how they interact. A request passes the middleware that validates its API key
-- (gorouter/internal/middleware/apikey.go, which calls gorouter/internal/apikeys/service.go) and the rate
-- limiter (gorouter/internal/middleware/ratelimit.go); then the router picks a provider for its model
-- (gorouter/internal/routing/router.go), or a combo tries its items in order
-- (gorouter/internal/combo/combo.go). The health monitor (gorouter/internal/provider/health.go) probes the
-- providers in the background. All of them keep their state in the repositories of
-- gorouter/internal/db/dbmanager.go, of which the JSON store is modelled. Users manage their combos by
-- the handlers of gorouter/internal/handlers/user_combos.go. A chat request comes to
-- gorouter/internal/handlers/v1/chat.go, which tries a combo of that name first, then the router's providers or
-- the model's own, and records and charges what was used. Users register and log in by
-- gorouter/internal/handlers/admin/auth.go and are managed by gorouter/internal/handlers/admin/users.go.
--
-- Which file models which part:
--   Base        tests, lists, integers, texts and maps that the parts share
--   Db          dbmanager.go: Types the records, Table one map of the store, Kept a map that holds each value
--               once under the value's id, and a module for each repository (Providers, ApiKeys, Users,
--               Models, Combos, RateLimits, Quotas, Aliases, Events)
--   RateLimit   ratelimit.go: Window one user's `slidingWindow`, Limiter the `RateLimiter`, its quota and the
--               middleware, Recorded `RecordUsage`; Counts and History what is let through over
--               time, Cleanup, Users, Retry, Again and QuotaRules the other laws
--   Routing     router.go: Sorting the interface of `sort.Slice`, Select the strategies and the three selecting
--               methods; Best, Weighted, Orders, Sound and Chosen what is selected
--   Health      health.go: one check, one round; Rounds, Recovery and Failures what happens over rounds
--   Combo       combo.go: Data, Attempt (`executeItem`) and Execute; Decided, Effects, Untouched and Skipped
--   ApiKeys     generator.go, service.go (Create, Service) and apikey.go (Access); Refused, Revoked, Slots
--               and Rotation
--   Aliases     gorouter/internal/models/alias.go: `ModelResolver`; Shadowed which alias it takes
--   UserCombos  gorouter/internal/handlers/user_combos.go: the handlers, Generate
--               `AutoGenerateCombo`; Owners and Listed whom they serve
--   Chat        chat.go: Direct `executeDirectRequest`, Usage `recordUsage`, Handler `ServeHTTP`; Decided which
--               candidate answers, Candidates which are tried, Marked what is written to them, Charged
--               what is charged
--   Messages    gorouter/internal/handlers/v1/messages.go: Direct the requests to a provider, Events the events of a
--               stream, Handler `ServeHTTP`; Deltas what a client of a stream is sent
--   Sessions    gorouter/internal/auth/jwt.go, gorouter/internal/auth/password.go and the handlers of auth.go:
--               Emails the test of an address, Register `Register`; Login who can log in
--   AdminUsers  users.go: the handlers; LockedOut and UniqueEmails what they do to the users
--   Admin       gorouter/internal/handlers/admin: Quotas, Limits and Aliases the handlers of quotas.go, ratelimits.go
--               and aliases.go; OneQuota, Named and OnePerUser what they keep
--   Crypto      gorouter/internal/crypto/crypto.go
--   Retention   gorouter/internal/db/cleanup.go; Kept what a cleanup keeps
--   Config      gorouter/internal/config/config.go; Loaded what a loaded configuration guarantees
--   Guards      gorouter/internal/middleware/auth.go: `RequireAuth` and `RequireAdmin`
--   UserKeys    gorouter/internal/handlers/user_keys.go: the handlers of one's own keys; Blanked what showing the
--               keys does to them, Owned who can revoke a key
--   Rtk         gorouter/internal/rtk/gitdiff.go and analysis.go of that folder: filters of outputs; Diffs,
--               Headers, Logs and Summary what they keep
--   Tokenizer   gorouter/internal/handlers/v1/tokenizer.go, with gorouter/internal/caveman/injector.go
--   Streaming   gorouter/internal/streaming/stream.go: `StreamResponse`; Sends what a client is sent
--   Tests       runs on concrete inputs
--
-- Operations are functions with explicit state: a repository method takes the map and returns it anew, a
-- handler returns its answer with the new state. Errors, nil results and panics are values. Names are the
-- source's, in snake case. `GetCombo` and the like, which pass on to one method, are that method.
--
-- Bounds. Go's integers are ℤ or ℕ without bounds, but for the durations of the retention, which wrap in 64
-- bits, and the numbers of the configuration, which have to fit in them. A time is a whole number of seconds and
-- is read once for a
-- call where the source reads it several times in a row. A price is a whole number of millionths. A backoff
-- stays far below the bound of `time.Duration`, as levels count failures. Loops are structural recursions,
-- and no fuel is needed but for the digits of a number, of which there are at most as many as its value.
--
-- What the source gets from elsewhere is an argument: the clock, random numbers, UUIDs, answers of a
-- database that may fail, decryption, hashes, adapters and HTTP exchanges; base64, AES-GCM, bcrypt and JWT
-- are records of functions with the laws that their documentation states. `sort.Slice` is an interface: the
-- result has the same members and, for a weak order, is ordered; nothing is assumed on ties.
--
-- Not modelled: the SQL drivers, `save` of the JSON store to its file, locks and the interleaving of
-- goroutines within one operation, metrics, JSON bodies, the handler of responses, those of
-- providers and models, OAuth tokens, the filters of outputs that rest on larger regular
-- expressions, the adapters, and the parts that no file above names.
pub mod Base
pub mod Db
pub mod RateLimit
pub mod Routing
pub mod Health
pub mod Combo
pub mod ApiKeys
pub mod Aliases
pub mod UserCombos
pub mod Chat
pub mod Sessions
pub mod Admin
pub mod AdminUsers
pub mod Messages
pub mod Crypto
pub mod Retention
pub mod Config
pub mod Guards
pub mod UserKeys
pub mod Rtk
pub mod Tokenizer
pub mod Streaming
pub mod Tests
