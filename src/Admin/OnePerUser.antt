-- ===== src/Admin/OnePerUser.antt =====
-- gorouter/internal/handlers/admin: a user has one quota and one rate limit at most, and a name one alias.
use yi_api_proxy.Base.{
  ℕ, String, str_eq, ◌≡◌, refl, sym, subst, Option, none, some, inl, inr, Bool-cases,
}
use yi_api_proxy.Db.Types.{Quota, RateLimit, ModelAlias}
use yi_api_proxy.Db.Table.{Table, put, find_by_id}
use yi_api_proxy.Db.Unique.{IsSound}
use yi_api_proxy.Db.RateLimits.{find_limit}
use yi_api_proxy.Db.RateLimits as Limits
use yi_api_proxy.Admin.{written}
use yi_api_proxy.Admin.Limits.{
  CreateRateLimitRequest, UpdateRateLimitRequest, create_limit, create_limit_unless, new_limit,
  update_limit, update_limit_found, limited, remove_limit,
}
use yi_api_proxy.Admin.Named.{
  SoundAliases, IsSameName, create_alias-IsSound, update_alias-IsSound, remove_alias-IsSound,
}
use yi_api_proxy.Admin.Aliases.{
  CreateAliasRequest, UpdateAliasRequest, create_alias, update_alias, remove_alias,
}
use yi_api_proxy.Admin.Quotas.{
  CreateQuotaRequest, UpdateQuotaRequest, create_quota, update_quota, remove_quota, reset_usage,
}
use yi_api_proxy.Admin.Saved.{put-init-IsSound, delete_handler-IsSound, saved-IsSound, init_set}
use yi_api_proxy.Admin.OneQuota.{
  SoundQuotas, create_quota-IsSound, update_quota-IsSound, remove_quota-IsSound,
  reset_usage-IsSound,
}

abbrev pub limit_id : RateLimit → String
limit_id l = l.id

abbrev pub limit_owner : RateLimit → String
limit_owner l = l.user_id

abbrev pub SoundLimits : Table RateLimit → Type 0
SoundLimits t = IsSound limit_id limit_owner t

module _ (now : ℕ) (id : String) (t : Table RateLimit) (h : SoundLimits t) where
  create_limit_unless-IsSound :
      (req : CreateRateLimitRequest) (o : Option RateLimit)
      → find_limit req.user_id t ≡ o
      → SoundLimits (create_limit_unless now id req t o).1
  unfolding create_limit_unless Limits.create find_limit
  create_limit_unless-IsSound req (some l) e = h
  create_limit_unless-IsSound req none e =
      put-init-IsSound limit_id limit_owner id (new_limit now id req) t refl e h

  pub create_limit-IsSound :
      (body : Option CreateRateLimitRequest) → SoundLimits (create_limit now id body t).1
  unfolding create_limit
  create_limit-IsSound none = h
  create_limit-IsSound (some req) = elim (Bool-cases (str_eq req.user_id "")) [
    | inl e ↦ rw e h
    | inr e ↦ rw e (create_limit_unless-IsSound req (find_limit req.user_id t) refl)
  ]

  update_limit_found-IsSound :
      (body : Option UpdateRateLimitRequest) (o : Option RateLimit)
      → find_by_id id t ≡ o
      → SoundLimits (update_limit_found now id body t o).1
  unfolding update_limit_found Limits.update
  update_limit_found-IsSound body none e = h
  update_limit_found-IsSound none (some l) e = h
  update_limit_found-IsSound (some req) (some l) e =
      let u = limited now req l in
      subst (λ r. SoundLimits (written 200 u t (put u.id u r)).1) (sym (init_set id u l t e))
        (saved-IsSound limit_id limit_owner 200 id u l t e refl refl h)

  pub update_limit-IsSound :
      (body : Option UpdateRateLimitRequest) → SoundLimits (update_limit now id body t).1
  unfolding update_limit
  update_limit-IsSound body = update_limit_found-IsSound body (find_by_id id t) refl

  pub remove_limit-IsSound : SoundLimits (remove_limit id t).1
  unfolding remove_limit
  remove_limit-IsSound = delete_handler-IsSound limit_id limit_owner "rate limit not found" id t h

-- If each quota, rate limit and alias is stored under its own id and no user has two quotas or two rate limits and no
-- two aliases have the same name, then this holds as well after every request to create, change or delete one of them,
-- and after a reset of the usage of a quota, whatever the request and the answer, and also where a new id is one that
-- the store has already; but for a change of an alias that gives it a new name.
pub one_per_owner :
    (next_month : ℕ → ℕ) (now : ℕ) (id : String) (quotas : Table Quota) (limits : Table RateLimit)
    (aliases : Table ModelAlias) (new_q : Option CreateQuotaRequest)
    (changed_q : Option UpdateQuotaRequest) (new_l : Option CreateRateLimitRequest)
    (changed_l : Option UpdateRateLimitRequest) (new_a : Option CreateAliasRequest)
    (changed_a : Option UpdateAliasRequest)
    → SoundQuotas quotas
    → SoundLimits limits
    → SoundAliases aliases
    → IsSameName changed_a
    → SoundQuotas (create_quota next_month now id new_q quotas).1
      × SoundQuotas (update_quota now id changed_q quotas).1
      × SoundQuotas (remove_quota id quotas).1
      × SoundQuotas (reset_usage next_month now id quotas).1
      × SoundLimits (create_limit now id new_l limits).1
      × SoundLimits (update_limit now id changed_l limits).1
      × SoundLimits (remove_limit id limits).1
      × SoundAliases (create_alias now id new_a aliases).1
      × SoundAliases (update_alias id changed_a aliases).1
      × SoundAliases (remove_alias id aliases).1
one_per_owner next_month now id quotas limits aliases new_q changed_q new_l changed_l new_a
      changed_a q l a same =
    (
      create_quota-IsSound next_month now id quotas q new_q,
      update_quota-IsSound next_month now id quotas q changed_q,
      remove_quota-IsSound next_month now id quotas q,
      reset_usage-IsSound next_month now id quotas q,
      create_limit-IsSound now id limits l new_l,
      update_limit-IsSound now id limits l changed_l,
      remove_limit-IsSound now id limits l,
      create_alias-IsSound id aliases a now new_a,
      update_alias-IsSound id aliases a changed_a same,
      remove_alias-IsSound id aliases a,
    )
