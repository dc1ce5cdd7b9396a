-- ===== src/Chat/Candidates.antt =====
-- gorouter/internal/handlers/v1/chat.go: the providers that `executeDirectRequest` tries, with the router of
-- gorouter/internal/routing/router.go.
use mathlib.Core.List.{Perm, mem-cons_self, not-mem-nil}
use mathlib.Core.List.Perm
use mathlib.Core.Option
use yi_api_proxy.Base.{ℕ, String, ◌≡◌, refl, List, [], ◌∷◌, Option, none, some}
use yi_api_proxy.Db.Types.{ProviderConnection, Model}
use yi_api_proxy.Db.Table.{Table, find_by_id}
use yi_api_proxy.Routing.Sorting.{Sorter}
use yi_api_proxy.Routing.Select.{
  listed, Selection, error, nothing, chosen, panic, select_providers_for_model,
}
use yi_api_proxy.Routing.Orders.{IsOrderedFor}
use yi_api_proxy.Routing.Sound.{usable_for, IsNotChosen, IsFallbackOrder, fallback_order}
use yi_api_proxy.Chat.Direct.{or_own, candidates_for}

-- The candidates: the usable providers, sorted for the strategy, and the model's own provider if there is
-- none.
abbrev pub AreCandidates :
    (List ProviderConnection → Type 0)
    → List ProviderConnection
    → Option ProviderConnection
    → Option (List ProviderConnection)
    → Type 0
AreCandidates InOrder [] own c = c ≡ Option.map (λ p. p ∷ []) own
AreCandidates InOrder (p ∷ ps) own c =
    (ys : List ProviderConnection) × (c ≡ some ys) × Perm ys (p ∷ ps) × InOrder ys

own_lem : (own : Option ProviderConnection) → or_own [] own ≡ Option.map (λ p. p ∷ []) own
own_lem none = refl
own_lem (some p) = refl

module _ (m : Model) (t : Table ProviderConnection) where
  own_only :
      (s : Selection (List ProviderConnection))
      → IsNotChosen s
      → candidates_for s m t ≡ Option.map (λ p. p ∷ []) (find_by_id m.provider_id t)
  unfolding candidates_for
  own_only error h = own_lem (find_by_id m.provider_id t)
  own_only nothing h = own_lem (find_by_id m.provider_id t)
  own_only (chosen ps) h = absurd h
  own_only panic h = own_lem (find_by_id m.provider_id t)

  routed_only :
      (p : ProviderConnection) (ps ys : List ProviderConnection)
      → Perm ys (p ∷ ps)
      → candidates_for (chosen ys) m t ≡ some ys
  unfolding candidates_for
  routed_only p ps [] r = absurd (not-mem-nil ((Perm.mem_iff r).1 mem-cons_self))
  routed_only p ps (y ∷ ys) r = refl

  sorted-AreCandidates :
      (InOrder : List ProviderConnection → Type 0) (usable : List ProviderConnection)
      (s : Selection (List ProviderConnection))
      → IsFallbackOrder InOrder usable s
      → AreCandidates InOrder usable (find_by_id m.provider_id t) (candidates_for s m t)
  sorted-AreCandidates InOrder [] s h = own_only s h
  sorted-AreCandidates InOrder (p ∷ ps) s h = (h.0, rw h.1 (routed_only p ps h.0 h.2), h.2, h.3)

-- Where the router's database answers, and by any sorter: the candidates of a chat request are exactly
-- the providers that are active, past their cooldown and offer an enabled model of the target's name,
-- with latencies that do not fall for the strategy `latency`, costs that do not fall for `cost`, and priorities that do
-- not rise for any other, `tier` too. If there is none, the one candidate is the target model's own
-- provider, as it is stored and whatever its status and its cooldown are, or no candidate if it is not stored.
pub chat_candidates :
    (sorter : Sorter) (strat : String) (now : ℕ) (later models : List Model)
    (providers : List ProviderConnection) (m : Model) (t : Table ProviderConnection)
    → AreCandidates
        (IsOrderedFor strat later m.model_id)
        (usable_for now models m.model_id providers)
        (find_by_id m.provider_id t)
        (candidates_for
          (select_providers_for_model sorter strat now later m.model_id
            (listed models)
            (listed providers))
          m
          t)
chat_candidates sorter strat now later models providers m t =
    sorted-AreCandidates m t (IsOrderedFor strat later m.model_id)
      (usable_for now models m.model_id providers) _
      (fallback_order sorter strat now later m.model_id models providers)
