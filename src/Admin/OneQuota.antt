-- ===== src/Admin/OneQuota.antt =====
-- gorouter/internal/handlers/admin/quotas.go: a user has one quota at most.
use yi_api_proxy.Base.{
  ℕ, String, str_eq, ◌≡◌, refl, sym, subst, Option, none, some, inl, inr, Bool-cases,
}
use yi_api_proxy.Base.Int.{pos}
use yi_api_proxy.Db.Types.{Quota}
use yi_api_proxy.Db.Table.{Table, put, after, find_by_id}
use yi_api_proxy.Db.Unique.{IsSound, is_owned, put_new-IsSound, put_over-IsSound, find-Found}
use yi_api_proxy.Db.Quotas.{find_quota, init_quotas, reset_monthly}
use yi_api_proxy.Db.Quotas as Quotas
use yi_api_proxy.Admin.Quotas.{
  CreateQuotaRequest, UpdateQuotaRequest, create_quota, create_unless, new_quota, update_quota,
  update_quota_found, capped, remove_quota, reset_usage, reset_found, zeroed,
}
use yi_api_proxy.Admin.Saved.{written-after, delete_handler-IsSound, saved-IsSound, put-Held}

abbrev pub quota_id : Quota → String
quota_id q = q.id

abbrev pub quota_owner : Quota → String
quota_owner q = q.user_id

abbrev pub SoundQuotas : Table Quota → Type 0
SoundQuotas t = IsSound quota_id quota_owner t

module _ (next_month : ℕ → ℕ) (now : ℕ) (id : String) (t : Table Quota) (h : SoundQuotas t) where
  create_unless-IsSound :
      (req : CreateQuotaRequest) (o : Option Quota)
      → find_quota req.user_id t ≡ o
      → SoundQuotas (create_unless next_month now id req t o).1
  unfolding create_unless Quotas.create find_quota init_quotas
  create_unless-IsSound req (some q) e = h
  create_unless-IsSound req none e =
      let quota = new_quota next_month now id req in
      subst SoundQuotas (sym (written-after 201 quota t (put id quota t)))
        (put_new-IsSound quota_id quota_owner id quota t refl e h)

  pub create_quota-IsSound :
      (body : Option CreateQuotaRequest) → SoundQuotas (create_quota next_month now id body t).1
  unfolding create_quota
  create_quota-IsSound none = h
  create_quota-IsSound (some req) = elim (Bool-cases (str_eq req.user_id "")) [
    | inl e ↦ rw e h
    | inr e ↦ rw e (create_unless-IsSound req (find_quota req.user_id t) refl)
  ]

  update_quota_found-IsSound :
      (body : Option UpdateQuotaRequest) (o : Option Quota)
      → find_by_id id t ≡ o
      → SoundQuotas (update_quota_found now id body t o).1
  unfolding update_quota_found Quotas.update init_quotas
  update_quota_found-IsSound body none e = h
  update_quota_found-IsSound none (some q) e = h
  update_quota_found-IsSound (some req) (some q) e =
      saved-IsSound quota_id quota_owner 200 id (capped now req q) q t e refl refl h

  pub update_quota-IsSound :
      (body : Option UpdateQuotaRequest) → SoundQuotas (update_quota now id body t).1
  unfolding update_quota
  update_quota-IsSound body = update_quota_found-IsSound body (find_by_id id t) refl

  pub remove_quota-IsSound : SoundQuotas (remove_quota id t).1
  unfolding remove_quota
  remove_quota-IsSound = delete_handler-IsSound quota_id quota_owner "quota not found" id t h

  -- `ResetMonthly` of any user, with what it leaves under the id.
  abbrev KeptUnder : Table Quota → Type 0
  KeptUnder t' = SoundQuotas t' × (q : Quota) × (find_by_id id t' ≡ some q)

  reset_monthly-Sound :
      (user : String) (q : Quota) (o : Option Quota)
      → find_by_id id t ≡ some q
      → find_quota user t ≡ o
      → KeptUnder (after t (reset_monthly now user t))
  unfolding reset_monthly find_quota init_quotas Quotas.update
  reset_monthly-Sound user q none e f = rw f (h, q, e)
  reset_monthly-Sound user q (some r) e f =
      let stored_r = find-Found quota_id quota_owner (is_owned quota_owner user) t r h.0 f in
      let over =
        put_over-IsSound quota_id quota_owner r.id
          (record r { used_tokens = pos 0; used_cost = pos 0; reset_at = now; updated_at = now }) r
          t stored_r refl refl h in
      let held =
        put-Held quota_id quota_owner id r.id
          (record r { used_tokens = pos 0; used_cost = pos 0; reset_at = now; updated_at = now }) q
          t e in
      rw f (over.1, held.0, held.1)

  reset_found-IsSound :
      (o : Option Quota) → find_by_id id t ≡ o → SoundQuotas (reset_found next_month now id t o).1
  unfolding reset_found
  reset_found-IsSound none e = h
  reset_found-IsSound (some q) e =
      let kept = reset_monthly-Sound id q (find_quota id t) e refl in
      rw kept.2
        (put_over-IsSound quota_id quota_owner id (zeroed next_month now kept.1) kept.1
          (after t (reset_monthly now id t)) kept.2 refl refl kept.0).1

  pub reset_usage-IsSound : SoundQuotas (reset_usage next_month now id t).1
  unfolding reset_usage
  reset_usage-IsSound = reset_found-IsSound (find_by_id id t) refl
