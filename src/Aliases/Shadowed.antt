-- ===== src/Aliases/Shadowed.antt =====
-- gorouter/internal/models/alias.go: an alias of another user takes the name of one's own.
use yi_api_proxy.Base.{String, str_eq, ◌≡◌, refl, true, false, List, ◌∷◌, ◌||◌}
use yi_api_proxy.Db.Types.{ModelAlias}
use yi_api_proxy.Db.Table.{Table, list}
use yi_api_proxy.Db.Aliases.{find_alias}
use yi_api_proxy.Aliases.{resolve, resolve_alias, resolve_plain}

-- Where the first alias of a name in the order of the map is another user's, `Resolve` answers as if there
-- were no alias at all, whichever aliases of the same name the user has, or all users share, after it;
-- where the order of the map puts an alias of the user's own, or a shared one, first, this one is used.
pub first_alias_decides :
    (name user_id : String) (alias : ModelAlias) (rest : List ModelAlias) (t : Table ModelAlias)
    → str_eq name "" ≡ false
    → str_eq alias.name name ≡ true
    → list t ≡ alias ∷ rest
    → ((str_eq alias.user_id "" || str_eq alias.user_id user_id) ≡ false
        → resolve name user_id t ≡ resolve_plain name)
      × ((str_eq alias.user_id "" || str_eq alias.user_id user_id) ≡ true
          → resolve name user_id t ≡ (alias.target_id, alias.provider))
unfolding resolve find_alias resolve_alias
first_alias_decides name user_id alias rest t named hit order =
    (λ other. rw (named, order, hit, other) refl, λ own. rw (named, order, hit, own) refl)
