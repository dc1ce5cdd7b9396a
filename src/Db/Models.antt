-- ===== src/Db/Models.antt =====
-- gorouter/internal/db/dbmanager.go: `jsonModelRepo`. `now` is the clock of the call.
use yi_api_proxy.Base.{ℕ, String, str_eq, List, filterb, ◌&&◌, ◌||◌}
use yi_api_proxy.Db.Types.{Model}
use yi_api_proxy.Db.Table.{Table, Write, put, init, list}

unfoldable pub create : ℕ → Model → Table Model → Write Model
create now m t = put m.id (record m { created_at = now; updated_at = now }) (init t)

unfoldable pub update : ℕ → Model → Table Model → Write Model
update now m t = put m.id (record m { updated_at = now }) t

unfoldable pub list_enabled : Table Model → List Model
list_enabled t = filterb (λ m. m.enabled) (list t)

unfoldable pub list_by_provider : String → Table Model → List Model
list_by_provider provider_id t =
    filterb (λ m. str_eq m.provider_id provider_id || str_eq m.provider provider_id) (list t)

unfoldable pub find_by_model_id : String → Table Model → List Model
find_by_model_id model_id t = filterb (λ m. str_eq m.model_id model_id && m.enabled) (list t)
