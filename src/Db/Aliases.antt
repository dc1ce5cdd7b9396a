-- ===== src/Db/Aliases.antt =====
-- gorouter/internal/db/dbmanager.go: `jsonAliasRepo`. `now` is the clock of the call.
use yi_api_proxy.Base.{ℕ, String, str_eq, Option, List, findb, filterb}
use yi_api_proxy.Db.Types.{ModelAlias}
use yi_api_proxy.Db.Table.{Table, Write, put, init, list}

unfoldable pub create : ℕ → ModelAlias → Table ModelAlias → Write ModelAlias
create now alias t = put alias.id (record alias { created_at = now }) (init t)

unfoldable pub find_alias : String → Table ModelAlias → Option ModelAlias
find_alias name t = findb (λ a. str_eq a.name name) (list t)

unfoldable pub find_by_user : String → Table ModelAlias → List ModelAlias
find_by_user user_id t = filterb (λ a. str_eq a.user_id user_id) (list t)

unfoldable pub list_global : Table ModelAlias → List ModelAlias
list_global t = filterb (λ a. str_eq a.user_id "") (list t)

unfoldable pub update : ModelAlias → Table ModelAlias → Write ModelAlias
update alias t = put alias.id alias t
