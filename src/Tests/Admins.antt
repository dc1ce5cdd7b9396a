-- ===== src/Tests/Admins.antt =====
-- gorouter/internal/handlers/admin: runs on a store with one quota, one rate limit and one alias.
use yi_api_proxy.Base.{ℕ, ◌+◌, ◌≡◌, refl, [], ◌∷◌, none, some, arith}
use yi_api_proxy.Base.Int.{pos}
use yi_api_proxy.Base.Assoc.{lookup, insert, values}
use yi_api_proxy.Db.Types.{Quota, RateLimit, ModelAlias}
use yi_api_proxy.Db.Table.{Table, list, find_by_id, put}
use yi_api_proxy.Db.Quotas.{find_quota, init_quotas, reset_monthly, update}
use yi_api_proxy.Admin.{shown, refused}
use yi_api_proxy.Admin.Quotas.{
  CreateQuotaRequest, reset_usage, reset_found, create_quota, create_unless, update_quota,
  remove_quota,
}
use yi_api_proxy.Admin.Limits.{create_limit, update_limit, remove_limit}
use yi_api_proxy.Admin.Aliases.{create_alias, update_alias, remove_alias}
use yi_api_proxy.Admin.OneQuota.{SoundQuotas}
use yi_api_proxy.Admin.OnePerUser.{SoundLimits, one_per_owner}
use yi_api_proxy.Admin.Named.{SoundAliases}

abbrev quota : Quota
quota = record {
  id = "q1";
  user_id = "u1";
  monthly_token_cap = pos 1000;
  monthly_cost_cap = pos 0;
  used_tokens = pos 900;
  used_cost = pos 5;
  reset_at = 100;
  created_at = 1;
  updated_at = 2;
}

abbrev quotas : Table Quota
quotas = some (("q1", quota) ∷ [])

abbrev limits : Table RateLimit
limits = some (
    (
      "l1",
      record {
        id = "l1";
        user_id = "u1";
        requests_per_minute = pos 5;
        requests_per_day = pos 50;
        tokens_per_minute = pos 0;
        created_at = 1;
        updated_at = 1;
      },
    )
    ∷ [])

abbrev aliases : Table ModelAlias
aliases = some (
    (
      "a1",
      record {
        id = "a1";
        name = "fast";
        target_id = "m1";
        provider = "";
        description = "";
        user_id = "";
        created_by = "";
        created_at = 1;
      },
    )
    ∷ [])

abbrev next_month : ℕ → ℕ
next_month now = now + 2592000

-- No user has the id of the quota, and the answer shows a usage of zero.
reset_shows_zero :
    (reset_usage next_month 50 "q1" quotas).0
    ≡ shown 200 (record quota { used_tokens = pos 0; used_cost = pos 0; reset_at = 2592050 })
unfolding reset_usage reset_found reset_monthly update init_quotas find_quota find_by_id put list
    lookup insert values
reset_shows_zero = refl

second_quota_refused :
    (create_quota next_month 50 "q2"
      (some (record { user_id = "u1"; monthly_token_cap = pos 9; monthly_cost_cap = pos 9 }))
      quotas).0
    ≡ refused 409 "quota already exists for this user"
unfolding create_quota create_unless init_quotas find_quota list values
second_quota_refused = refl

abbrev asked : CreateQuotaRequest
asked = record { user_id = "u2"; monthly_token_cap = pos 9; monthly_cost_cap = pos 9 }

quotas-Sound : SoundQuotas quotas
unfolding list values lookup
quotas-Sound = ((refl, refl, tt), λ user. ground arith)

limits-Sound : SoundLimits limits
unfolding list values lookup
limits-Sound = ((refl, refl, tt), λ user. ground arith)

aliases-Sound : SoundAliases aliases
unfolding list values lookup
aliases-Sound = ((refl, refl, tt), λ user. ground arith)

one_per_owner_example :
    SoundQuotas (create_quota next_month 50 "q2" (some asked) quotas).1
    × SoundQuotas
        (update_quota 50 "q2"
          (some (record { monthly_token_cap = some (pos 7); monthly_cost_cap = none }))
          quotas).1
    × SoundQuotas (remove_quota "q2" quotas).1
    × SoundQuotas (reset_usage next_month 50 "q2" quotas).1
    × SoundLimits (create_limit 50 "q2" none limits).1
    × SoundLimits (update_limit 50 "q2" none limits).1
    × SoundLimits (remove_limit "q2" limits).1
    × SoundAliases (create_alias 50 "q2" none aliases).1
    × SoundAliases (update_alias "q2" none aliases).1
    × SoundAliases (remove_alias "q2" aliases).1
one_per_owner_example =
    one_per_owner next_month 50 "q2" quotas limits aliases (some asked)
      (some (record { monthly_token_cap = some (pos 7); monthly_cost_cap = none })) none none none
      none quotas-Sound limits-Sound aliases-Sound tt
