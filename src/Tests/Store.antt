-- ===== src/Tests/Store.antt =====
-- gorouter/internal/db/dbmanager.go and models/alias.go: runs on small stores.
use yi_api_proxy.Base.{◌≡◌, refl, String, List, [], ◌∷◌, some, true, false, ltb}
use yi_api_proxy.Base.Int.{pos, ◌+ℤ◌, ltb_ℤ, leb_ℤ}
use yi_api_proxy.Base.Assoc.{Assoc, lookup, values}
use yi_api_proxy.Db.Types.{Quota, ModelAlias, Combo, ComboItem}
use yi_api_proxy.Db.Table.{Table, find_by_id, list, after, put}
use yi_api_proxy.Db.Users.{UserFilter}
use yi_api_proxy.Db.Quotas.{find_quota, used_more, init_quotas}
use yi_api_proxy.Db.Combos.{done, find_item, reorder_items}
use yi_api_proxy.Db.Combos.Reordered.{Numbered, reorder_items-Numbered}
use yi_api_proxy.RateLimit.Window.{deny}
use yi_api_proxy.RateLimit.Limiter.{check_quota, found, quota_wait}
use yi_api_proxy.RateLimit.Recorded.{record_usage, recorded_usage_counts}
use yi_api_proxy.Tests.Samples.{spent_quota}
use yi_api_proxy.Tests.RateLimits.{limiter}
use yi_api_proxy.Tests.Combos.{item, combo}

abbrev everyone : UserFilter
everyone = record { role = ""; status = "" }

abbrev quotas : Table Quota
quotas = some (("q1", record spent_quota { used_tokens = pos 900 }) ∷ [])

recorded_usage_counts_example :
    (find_quota "u1" (after quotas (record_usage limiter 100 "u1" (pos 150) (pos 0) quotas))
      ≡ some (used_more 100 (pos 150) (pos 0) (record spent_quota { used_tokens = pos 900 })))
    × (ltb 5000 200 ≡ false
        → ltb_ℤ (pos 0) (pos 1000) ≡ true
        → leb_ℤ (pos 1000) (pos 900 +ℤ pos 150) ≡ true
        → check_quota 200 9000
            (found (
              find_quota "u1"
                (after quotas (record_usage limiter 100 "u1" (pos 150) (pos 0) quotas))))
            false
          ≡ deny (quota_wait 5000 200) "monthly_token_quota_exceeded")
unfolding lookup find_quota list init_quotas values
recorded_usage_counts_example =
    recorded_usage_counts limiter 100 200 9000 "u1" (pos 150) (pos 0)
      (record spent_quota { used_tokens = pos 900 }) quotas false (refl, refl, tt) refl refl refl

abbrev alias : String → ModelAlias
alias user_id = record {
  id = user_id;
  name = "fast";
  target_id = "gpt-4o-mini";
  provider = "openai";
  description = "";
  user_id = user_id;
  created_by = user_id;
  created_at = 1;
}

abbrev aliases : Table ModelAlias
aliases = some (("u2", alias "u2") ∷ ("u1", alias "u1") ∷ [])

abbrev pub named : String → ComboItem
named id = record (item "a") { id = id }

abbrev pub ordered : Combo
ordered = record combo { items = named "i1" ∷ named "i2" ∷ [] }

abbrev pub entries : Assoc Combo
entries = ("c", ordered) ∷ []

reorder_items-Numbered_example :
    (items : List ComboItem) × (reorder_items 9 "c" ("i2" ∷ "i1" ∷ []) (some entries)
      ≡ done (put "c" (record ordered { items = items; updated_at = 9 }) (some entries)))
    × Numbered 0 ordered.items ("i2" ∷ "i1" ∷ []) items
unfolding find_by_id lookup find_item
reorder_items-Numbered_example =
    reorder_items-Numbered 9 "c" ("i2" ∷ "i1" ∷ []) ordered (some entries) refl
      ((refl, tt), (tt, tt)) ((named "i2", refl), ((named "i1", refl), tt))
