-- ===== src/Admin/Aliases.antt =====
-- gorouter/internal/handlers/admin/aliases.go: `AliasHandler`.
use yi_api_proxy.Base.{ℕ, String, str_eq, Option, none, some, if◌then◌else◌, ◌||◌}
use yi_api_proxy.Db.Types.{ModelAlias}
use yi_api_proxy.Db.Table.{Table, find_by_id}
use yi_api_proxy.Db.Aliases.{create, update, find_alias, list_global}
use yi_api_proxy.Admin.{AdminReply, refused, shown_all, written, set_at, get, delete_handler, given}

pub record CreateAliasRequest : Type 0 where
  pub name : String
  pub target_id : String
  pub provider : String
  pub description : String
  pub user_id : String

pub record UpdateAliasRequest : Type 0 where
  pub name : Option String
  pub target_id : Option String
  pub provider : Option String
  pub description : Option String

unfoldable pub list_aliases : Table ModelAlias → AdminReply ModelAlias × Table ModelAlias
unfolding list_global
list_aliases t = (shown_all (list_global t), t)

unfoldable pub show_alias : String → Table ModelAlias → AdminReply ModelAlias × Table ModelAlias
show_alias id t = get "alias not found" id t

unfoldable pub remove_alias : String → Table ModelAlias → AdminReply ModelAlias × Table ModelAlias
unfolding delete_handler
remove_alias id t = delete_handler "alias not found" id t

abbrev pub new_alias : ℕ → String → CreateAliasRequest → ModelAlias
new_alias now id req = record {
  id = id;
  name = req.name;
  target_id = req.target_id;
  provider = req.provider;
  description = req.description;
  user_id = req.user_id;
  created_by = "";
  created_at = now;
}

unfoldable pub create_alias_unless :
    ℕ
    → String
    → CreateAliasRequest
    → Table ModelAlias
    → Option ModelAlias
    → AdminReply ModelAlias × Table ModelAlias
unfolding create
create_alias_unless now id req t (some a) = (refused 409 "alias name already exists", t)
create_alias_unless now id req t none =
    written 201 (new_alias now id req) t (create now (new_alias now id req) t)

-- `none`: the body is not JSON of a request.
unfoldable pub create_alias :
    ℕ
    → String
    → Option CreateAliasRequest
    → Table ModelAlias
    → AdminReply ModelAlias × Table ModelAlias
unfolding create_alias_unless find_alias
create_alias now id none t = (refused 400 "invalid JSON", t)
create_alias now id (some req) t =
    if str_eq req.name "" || str_eq req.target_id ""
    then (refused 400 "name and target_id are required", t)
    else create_alias_unless now id req t (find_alias req.name t)

abbrev pub renamed : UpdateAliasRequest → ModelAlias → ModelAlias
renamed req a = record a {
  name = given req.name a.name;
  target_id = given req.target_id a.target_id;
  provider = given req.provider a.provider;
  description = given req.description a.description;
}

unfoldable pub update_alias_found :
    String
    → Option UpdateAliasRequest
    → Table ModelAlias
    → Option ModelAlias
    → AdminReply ModelAlias × Table ModelAlias
unfolding update
update_alias_found id body t none = (refused 404 "alias not found", t)
update_alias_found id none t (some a) = (refused 400 "invalid JSON", t)
update_alias_found id (some req) t (some a) =
    written 200 (renamed req a) t (update (renamed req a) (set_at id (renamed req a) t))

unfoldable pub update_alias :
    String → Option UpdateAliasRequest → Table ModelAlias → AdminReply ModelAlias × Table ModelAlias
unfolding update_alias_found
update_alias id body t = update_alias_found id body t (find_by_id id t)
