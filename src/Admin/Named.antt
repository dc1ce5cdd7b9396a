-- ===== src/Admin/Named.antt =====
-- gorouter/internal/handlers/admin/aliases.go: a name has one alias at most.
use yi_api_proxy.Base.{
  ℕ, String, str_eq, ◌≡◌, refl, ap, ◌||◌, Option, none, some, inl, inr, Bool-cases,
}
use yi_api_proxy.Db.Types.{ModelAlias}
use yi_api_proxy.Db.Table.{Table, find_by_id}
use yi_api_proxy.Db.Unique.{IsSound}
use yi_api_proxy.Db.Aliases.{find_alias}
use yi_api_proxy.Db.Aliases as Stored
use yi_api_proxy.Admin.{given}
use yi_api_proxy.Admin.Saved.{delete_handler-IsSound, saved-IsSound, put-init-IsSound}
use yi_api_proxy.Admin.Aliases.{
  CreateAliasRequest, UpdateAliasRequest, create_alias, create_alias_unless, new_alias,
  update_alias, update_alias_found, renamed, remove_alias,
}

abbrev pub alias_id : ModelAlias → String
alias_id a = a.id

abbrev pub alias_name : ModelAlias → String
alias_name a = a.name

abbrev pub SoundAliases : Table ModelAlias → Type 0
SoundAliases t = IsSound alias_id alias_name t

-- A body that gives no new name.
abbrev pub IsSameName : Option UpdateAliasRequest → Type 0
IsSameName none = Unit
IsSameName (some req) = req.name ≡ none

module _ (id : String) (t : Table ModelAlias) (h : SoundAliases t) where
  create_alias_unless-IsSound :
      (now : ℕ) (req : CreateAliasRequest) (o : Option ModelAlias)
      → find_alias req.name t ≡ o
      → SoundAliases (create_alias_unless now id req t o).1
  unfolding create_alias_unless Stored.create find_alias
  create_alias_unless-IsSound now req (some a) e = h
  create_alias_unless-IsSound now req none e =
      put-init-IsSound alias_id alias_name id (new_alias now id req) t refl e h

  pub create_alias-IsSound :
      (now : ℕ) (body : Option CreateAliasRequest) → SoundAliases (create_alias now id body t).1
  unfolding create_alias
  create_alias-IsSound now none = h
  create_alias-IsSound now (some req) =
      elim (Bool-cases (str_eq req.name "" || str_eq req.target_id "")) [
        | inl e ↦ rw e h
        | inr e ↦ rw e (create_alias_unless-IsSound now req (find_alias req.name t) refl)
      ]

  update_alias_found-IsSound :
      (body : Option UpdateAliasRequest) (o : Option ModelAlias)
      → IsSameName body
      → find_by_id id t ≡ o
      → SoundAliases (update_alias_found id body t o).1
  unfolding update_alias_found Stored.update
  update_alias_found-IsSound body none same e = h
  update_alias_found-IsSound none (some a) same e = h
  update_alias_found-IsSound (some req) (some a) same e =
      saved-IsSound alias_id alias_name 200 id (renamed req a) a t e refl
        (ap (λ n. given n a.name) same) h

  pub update_alias-IsSound :
      (body : Option UpdateAliasRequest) → IsSameName body → SoundAliases (update_alias id body t).1
  unfolding update_alias
  update_alias-IsSound body same = update_alias_found-IsSound body (find_by_id id t) same refl

  pub remove_alias-IsSound : SoundAliases (remove_alias id t).1
  unfolding remove_alias
  remove_alias-IsSound = delete_handler-IsSound alias_id alias_name "alias not found" id t h
