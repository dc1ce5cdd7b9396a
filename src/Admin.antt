-- ===== src/Admin.antt =====
-- gorouter/internal/handlers/admin: the handlers of quotas, rate limits and aliases, on the JSON store. A repository
-- gives pointers to the stored values, so a field that a handler sets is set in the store at once. `now` is the clock
-- of the call, `id` of a `create` is the new random id; the audit log is left out.
pub mod Quotas
pub mod Limits
pub mod Aliases
pub mod Saved
pub mod OneQuota
pub mod OnePerUser
pub mod Named
use yi_api_proxy.Base.{ℕ, String, List, Option, none, some}
use yi_api_proxy.Db.Table.{Table, Write, stored, panic, after, put, find_by_id, list, delete}

pub data AdminReply (V : Type 0) : Type 0 where
  refused : ℕ → String → AdminReply V
  shown : ℕ → V → AdminReply V
  shown_all : List V → AdminReply V
  removed : AdminReply V
  crashed : AdminReply V

module _ {V : Type 0} where
  -- What a handler answers after a write.
  abbrev pub written : ℕ → V → Table V → Write V → AdminReply V × Table V
  written code v t (stored t') = (shown code v, t')
  written code v t panic = (crashed, t)

  -- The value of the pointer that is stored under `id` after a write through it.
  abbrev pub set_at : String → V → Table V → Table V
  set_at id v t = after t (put id v t)

  abbrev pub show_found : String → Option V → AdminReply V
  show_found missing none = refused 404 missing
  show_found missing (some v) = shown 200 v

  -- `Get`: the same for the three.
  abbrev pub get : String → String → Table V → AdminReply V × Table V
  get missing id t = (show_found missing (find_by_id id t), t)

  abbrev pub delete_found : String → String → Table V → Option V → AdminReply V × Table V
  delete_found missing id t none = (refused 404 missing, t)
  delete_found missing id t (some v) = (removed, delete id t)

  -- `Delete`: the same for the three.
  unfoldable pub delete_handler : String → String → Table V → AdminReply V × Table V
  delete_handler missing id t = delete_found missing id t (find_by_id id t)

-- A field of an update that the body may leave out.
abbrev pub given : {A : Type 0} → Option A → A → A
given none old = old
given (some new) old = new
