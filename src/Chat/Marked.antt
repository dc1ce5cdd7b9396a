-- ===== src/Chat/Marked.antt =====
-- gorouter/internal/handlers/v1/chat.go: what `executeDirectRequest` writes to the table of the providers.
use yi_api_proxy.Base.{
  ℕ, suc, ◌+◌, String, str_eq, eq_refl, ◌≡◌, refl, ap, ◌∙◌, Bool, true, false, List, [], ◌∷◌,
  Option, none, some, ◌⊎◌, inl, inr, if◌then◌else◌, leb, Bool-cases, Option-cases, All,
}
use yi_api_proxy.Base.Int.{ℤ}
use yi_api_proxy.Base.Text.{◌+++◌, itoa}
use yi_api_proxy.Db.Types.{ProviderConnection}
use yi_api_proxy.Db.Table.{Table, find_by_id, after}
use yi_api_proxy.Db.Providers.{cooled_down, update_found, mark_cooldown}
use yi_api_proxy.Db.Providers.Laws.{
  IsKeyed, stamped, find-update_found, find-mark_cooldown, update_found-IsKeyed,
}
use yi_api_proxy.Routing.Select.{is_available}
use yi_api_proxy.Chat.{
  ChatRequest, ChatCalls, Outcome, with_latency, update_provider_latency, mark_provider_cooldown,
  norm_request, is_retryable,
}
use yi_api_proxy.Chat.Direct.{
  Tried, next, finished, or_continue, after_do, after_translate, after_token, try_provider,
  try_candidates,
}

module _ (now : ℕ) (latency : ℤ) (id : String) (t : Table ProviderConnection) (k : IsKeyed t) where
  update_provider_latency-IsKeyed : IsKeyed (update_provider_latency now id latency t)
  unfolding update_provider_latency
  update_provider_latency-IsKeyed = elim (Bool-cases (str_eq id "")) [
    | inl e ↦ rw e k
    | inr e ↦
        rw e (update_found-IsKeyed (with_latency latency) now t (find_by_id id t) (λ q. refl) k)
  ]

  find-update_provider_latency :
      (j : String) (q : ProviderConnection)
      → str_eq id "" ≡ false
      → find_by_id id t ≡ some q
      → find_by_id j (update_provider_latency now id latency t)
        ≡ (if str_eq id j then some (stamped now (with_latency latency q)) else find_by_id j t)
  unfolding update_provider_latency
  find-update_provider_latency j q named e =
      rw named (find-update_found (with_latency latency) now id j q t (λ r. refl) k e)

  mark_provider_cooldown-IsKeyed :
      (message : String) → IsKeyed (mark_provider_cooldown now id message t)
  unfolding mark_provider_cooldown mark_cooldown
  mark_provider_cooldown-IsKeyed message = elim (Bool-cases (str_eq id "")) [
    | inl e ↦ rw e k
    | inr e ↦ rw e (
        update_found-IsKeyed (cooled_down now (now + 60) message) now t (find_by_id id t)
          (λ q. refl) k)
  ]

  find-mark_provider_cooldown :
      (message j : String) (q : ProviderConnection)
      → str_eq id "" ≡ false
      → find_by_id id t ≡ some q
      → find_by_id j (mark_provider_cooldown now id message t) ≡ (
          if str_eq id j
          then some (stamped now (cooled_down now (now + 60) message q))
          else find_by_id j t)
  unfolding mark_provider_cooldown
  find-mark_provider_cooldown message j q named e =
      rw named (find-mark_cooldown now (now + 60) id message t k j q e)

-- What an attempt on a connection comes to.
data Effect (now : ℕ) (latency : ℤ) (id : String) (t : Table ProviderConnection)
    : Tried × Table ProviderConnection → Type 0 where
  unwritten : (r : Tried) → Effect now latency id t (r, t)
  measured : (r : Tried) → Effect now latency id t (r, update_provider_latency now id latency t)
  marked :
      (r : Tried) (message : String)
      → Effect now latency id t
          (r, mark_provider_cooldown now id message (update_provider_latency now id latency t))

module _ (now : ℕ) (latency : ℤ) (p : ProviderConnection) (t : Table ProviderConnection) where
  after_do-Effect :
      (model : String) (stream : Bool) (reply : String ⊎ (ℕ × String))
      → Effect now latency p.id t (after_do now latency model stream p t reply)
  unfolding after_do
  after_do-Effect model stream (inl err) = marked _ _
  after_do-Effect model stream (inr (status, body)) = elim (Bool-cases (is_retryable status)) [
    | inl e ↦ rw e (marked _ _)
    | inr e ↦ elim (Bool-cases (leb 400 status)) [
      | inl f ↦ rw (e, f) (measured _)
      | inr f ↦ rw (e, f) (measured _)
    ]
  ]

module _ {HttpRequest : Type 0} (calls : ChatCalls HttpRequest) (model : String) (req : ChatRequest)
    (p : ProviderConnection) (t : Table ProviderConnection) where
  after_translate-Effect :
      (o : Option HttpRequest)
      → Effect calls.now calls.latency p.id t (after_translate calls model req.stream p t o)
  after_translate-Effect none = unwritten _
  after_translate-Effect (some request) =
      after_do-Effect calls.now calls.latency p t model req.stream (calls.send request)

  after_token-Effect :
      (o : Option String)
      → Effect calls.now calls.latency p.id t (after_token calls model req p t o)
  after_token-Effect none = unwritten _
  after_token-Effect (some key) = after_translate-Effect _

  try_provider-Effect : Effect calls.now calls.latency p.id t (try_provider calls model req p t)
  unfolding try_provider
  try_provider-Effect = elim (Bool-cases (calls.has_adapter p.provider)) [
    | inl e ↦ rw e (after_token-Effect (calls.token p))
    | inr e ↦ rw e (unwritten _)
  ]

module _ (now : ℕ) (latency : ℤ) (id : String) (t : Table ProviderConnection) (k : IsKeyed t) where
  Effect-IsKeyed : (o : Tried × Table ProviderConnection) → Effect now latency id t o → IsKeyed o.1
  Effect-IsKeyed o (unwritten r) = k
  Effect-IsKeyed o (measured r) = update_provider_latency-IsKeyed now latency id t k
  Effect-IsKeyed o (marked r message) =
      mark_provider_cooldown-IsKeyed now latency id (update_provider_latency now id latency t)
        (update_provider_latency-IsKeyed now latency id t k) message

module _ (f : ProviderConnection → ProviderConnection) (now : ℕ) (id j : String)
    (t : Table ProviderConnection) (keeps : (q : ProviderConnection) → (f q).id ≡ q.id)
    (k : IsKeyed t) (other : str_eq id j ≡ false) where
  find-update_found_other :
      find_by_id j (after t (update_found f now t (find_by_id id t))) ≡ find_by_id j t
  find-update_found_other = elim (Option-cases (find_by_id id t)) [
    | inl e ↦ rw e refl
    | inr e ↦ find-update_found f now id j e.0 t keeps k e.1 ∙ rw other refl
  ]

module _ (now : ℕ) (latency : ℤ) (id j : String) (t : Table ProviderConnection) (k : IsKeyed t)
    (other : str_eq id j ≡ false) where
  other_latency : find_by_id j (update_provider_latency now id latency t) ≡ find_by_id j t
  unfolding update_provider_latency
  other_latency = elim (Bool-cases (str_eq id "")) [
    | inl e ↦ rw e refl
    | inr e ↦ rw e (find-update_found_other (with_latency latency) now id j t (λ q. refl) k other)
  ]

  other_cooldown :
      (message : String) → find_by_id j (mark_provider_cooldown now id message t) ≡ find_by_id j t
  unfolding mark_provider_cooldown mark_cooldown
  other_cooldown message = elim (Bool-cases (str_eq id "")) [
    | inl e ↦ rw e refl
    | inr e ↦ rw e (
        find-update_found_other (cooled_down now (now + 60) message) now id j t (λ q. refl) k other)
  ]

module _ (now : ℕ) (latency : ℤ) (id j : String) (t : Table ProviderConnection) (k : IsKeyed t)
    (other : str_eq id j ≡ false) where
  Effect-find :
      (o : Tried × Table ProviderConnection)
      → Effect now latency id t o
      → find_by_id j o.1 ≡ find_by_id j t
  Effect-find o (unwritten r) = refl
  Effect-find o (measured r) = other_latency now latency id j t k other
  Effect-find o (marked r message) =
      other_cooldown now latency id j (update_provider_latency now id latency t)
        (update_provider_latency-IsKeyed now latency id t k) other message
      ∙ other_latency now latency id j t k other

module _ {HttpRequest : Type 0} (calls : ℕ → ChatCalls HttpRequest) (model j : String)
    (req : ChatRequest) where
  Kept : Table ProviderConnection → Outcome × Table ProviderConnection → Type 0
  Kept t out = IsKeyed out.1 × (find_by_id j out.1 ≡ find_by_id j t)

  or_continue-Kept :
      (t : Table ProviderConnection) (r : Tried × Table ProviderConnection)
      (rest : String → Table ProviderConnection → Outcome × Table ProviderConnection)
      → IsKeyed r.1
      → find_by_id j r.1 ≡ find_by_id j t
      → ((err : String) → Kept r.1 (rest err r.1))
      → Kept t (or_continue r rest)
  unfolding Kept
  or_continue-Kept t (next err, t') rest k e h = ((h err).0, (h err).1 ∙ e)
  or_continue-Kept t (finished out, t') rest k e h = (k, e)

  -- The loop over the candidates keeps every connection under its own id, and leaves each connection as
  -- it was whose id is not that of a candidate.
  pub only_candidates_written :
      (i : ℕ) (err : String) (ps : List ProviderConnection) (t : Table ProviderConnection)
      → IsKeyed t
      → All (λ p. str_eq p.id j ≡ false) ps
      → IsKeyed (try_candidates calls i err model req ps t).1
        × (find_by_id j (try_candidates calls i err model req ps t).1 ≡ find_by_id j t)
  unfolding try_candidates Kept
  only_candidates_written i err [] t k a = (k, refl)
  only_candidates_written i err (p ∷ ps) t k a = elim (Bool-cases (leb 3 i)) [
    | inl e ↦ rw e (k, refl)
    | inr e ↦
        let effect = try_provider-Effect (calls i) model req p t in
        let keyed = Effect-IsKeyed (calls i).now (calls i).latency p.id t k _ effect in
        rw e (
          or_continue-Kept t (try_provider (calls i) model req p t) _ keyed
            (Effect-find (calls i).now (calls i).latency p.id j t k a.0 _ effect)
            (λ err'. only_candidates_written (suc i) err' ps _ keyed a.1))
  ]

-- A network error, or a status at which the next candidate is tried.
abbrev pub is_failure : String ⊎ (ℕ × String) → Bool
is_failure (inl err) = true
is_failure (inr (status, body)) = is_retryable status

module _ (now : ℕ) (latency : ℤ) (p : ProviderConnection) (t : Table ProviderConnection) where
  failed_marks :
      (model : String) (stream : Bool) (reply : String ⊎ (ℕ × String))
      → is_failure reply ≡ true
      → (err : String) × (message : String) × (after_do now latency model stream p t reply ≡ (
        next err,
        mark_provider_cooldown now p.id message (update_provider_latency now p.id latency t),
      ))
  unfolding after_do
  failed_marks model stream (inl err) f = (_, _, refl)
  failed_marks model stream (inr (status, body)) f =
      ("provider returned " +++ itoa status, "HTTP " +++ itoa status, rw f refl)

module _ {HttpRequest : Type 0} (calls : ChatCalls HttpRequest) (model key : String)
    (req : ChatRequest) (request : HttpRequest) (reply : String ⊎ (ℕ × String))
    (p q : ProviderConnection) (t : Table ProviderConnection) (any : ℕ) where
  contacted :
      calls.has_adapter p.provider ≡ true
      → calls.token p ≡ some key
      → calls.translate_request p.provider (norm_request model req) p.base_url key ≡ some request
      → calls.send request ≡ reply
      → try_provider calls model req p t
        ≡ after_do calls.now calls.latency model req.stream p t reply
  unfolding try_provider
  contacted a b c d = rw (a, b, c, d) refl

  is_cold :
      (m : String) (r : ProviderConnection)
      → is_available any (stamped calls.now (cooled_down calls.now (calls.now + 60) m r)) ≡ false
  is_cold m r = elim (Bool-cases (str_eq r.tier "")) [ inl e ↦ rw e refl | inr e ↦ rw e refl ]

  -- A candidate whose request was sent and came to a network error, to 429 or to a status of 500 or more:
  -- the next candidate is tried, and the stored connection keeps its own data, has the measured latency, is in
  -- cooldown for 60 seconds, and is not available to the router at any time as it is stored.
  pub failed_candidate_cools :
      IsKeyed t
      → find_by_id p.id t ≡ some q
      → str_eq p.id "" ≡ false
      → calls.has_adapter p.provider ≡ true
      → calls.token p ≡ some key
      → calls.translate_request p.provider (norm_request model req) p.base_url key ≡ some request
      → calls.send request ≡ reply
      → is_failure reply ≡ true
      → (err : String) × (message : String) × ((try_provider calls model req p t).0 ≡ next err)
        × (find_by_id p.id (try_provider calls model req p t).1
            ≡ some (
                stamped calls.now (
                  cooled_down calls.now
                    (calls.now + 60)
                    message
                    (stamped calls.now (with_latency calls.latency q)))))
        × (is_available any (
              stamped calls.now (
                cooled_down calls.now
                  (calls.now + 60)
                  message
                  (stamped calls.now (with_latency calls.latency q))))
            ≡ false)
  failed_candidate_cools k e named a b c d f =
      let same = contacted a b c d in
      let m = failed_marks calls.now calls.latency p t model req.stream reply f in
      let measured_table = update_provider_latency calls.now p.id calls.latency t in
      let r = stamped calls.now (with_latency calls.latency q) in
      let here : find_by_id p.id measured_table ≡ some r =
        find-update_provider_latency calls.now calls.latency p.id t k p.id q named e
        ∙ rw (eq_refl p.id) refl in
      let keyed = update_provider_latency-IsKeyed calls.now calls.latency p.id t k in
      let out = same ∙ m.2 in
      (
        m.0,
        m.1,
        ap (λ o. o.0) out,
        ap (λ o. find_by_id p.id o.1) out
            ∙ find-mark_provider_cooldown calls.now calls.latency p.id measured_table keyed m.1 p.id
                r named here
            ∙ rw (eq_refl p.id) refl,
        is_cold m.1 r,
      )
