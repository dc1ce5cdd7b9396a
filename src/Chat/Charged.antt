-- ===== src/Chat/Charged.antt =====
-- gorouter/internal/handlers/v1/chat.go: which requests are charged to a quota, and what is recorded of them.
use yi_api_proxy.Base.{
  ℕ, String, str_eq, ◌≡◌, refl, ap, subst, Bool, true, false, List, Option, none, some, ◌⊎◌, inl,
  inr, if◌then◌else◌, leb, ◌==◌, arith, Bool-cases,
}
use yi_api_proxy.Base.Int.{ℤ}
use yi_api_proxy.Base.Assoc.{Assoc, lookup}
use yi_api_proxy.Db.Types.{ProviderConnection, Model, Quota}
use yi_api_proxy.Db.Table.{Table, after}
use yi_api_proxy.Db.Quotas.{increment_usage}
use yi_api_proxy.Db.Models.{list_enabled}
use yi_api_proxy.Routing.Select.{listed, Selection}
use yi_api_proxy.Combo.Data.{ExecuteResponse}
use yi_api_proxy.Chat.{
  ChatRequest, ChatCalls, Outcome, Reply, failure, passed_on, streamed, encoded, chunked,
  TokenUsage, Body, Value, Field, object, text, ignored, is_retryable,
}
use yi_api_proxy.Chat.Direct.{
  Tried, next, finished, after_do, after_translate, after_token, try_provider, try_candidates,
  run_candidates, on_target, candidates_for, execute_direct_request, answered_by,
}
use yi_api_proxy.Chat.Decided.{first_deciding_candidate}
use yi_api_proxy.Chat.Usage.{
  charge, record_chat_usage, user_of, is_success, cost_of, usage_in, extract_usage, int_or_zero,
  calculate_model_cost,
}
use yi_api_proxy.Chat.Handler.{
  ChatState, Outside, captured_usage, recorded, run_direct, after_combo, after_combo_stream,
  handle_streaming, handle_non_streaming, handle, text_or, member,
}

-- A body is captured only of an answer that was passed on whole.
abbrev IsCaptured : Outcome → Type 0
IsCaptured out =
    (out.captured_body ≡ none)
    ⊎ ((body : String) × (out.captured_body ≡ some body) × (out.reply ≡ passed_on 200 body))

abbrev FinishesCaptured : Tried → Type 0
FinishesCaptured (next err) = Unit
FinishesCaptured (finished out) = IsCaptured out

answered_by-IsCaptured :
    (provider model : String) (stream : Bool) (body : String)
    → IsCaptured (answered_by provider model stream body)
answered_by-IsCaptured provider model true body = inl refl
answered_by-IsCaptured provider model false body = inr (body, refl, refl)

after_do-IsCaptured :
    (now : ℕ) (latency : ℤ) (model : String) (stream : Bool) (p : ProviderConnection)
    (t : Table ProviderConnection) (reply : String ⊎ (ℕ × String))
    → FinishesCaptured (after_do now latency model stream p t reply).0
unfolding after_do
after_do-IsCaptured now latency model stream p t (inl err) = tt
after_do-IsCaptured now latency model stream p t (inr (status, body)) =
    elim (Bool-cases (is_retryable status)) [
      | inl e ↦ rw e tt
      | inr e ↦ elim (Bool-cases (leb 400 status)) [
        | inl f ↦ rw (e, f) (inl refl)
        | inr f ↦ rw (e, f) (answered_by-IsCaptured p.provider model stream body)
      ]
    ]

module _ {HttpRequest : Type 0} (calls : ChatCalls HttpRequest) (model : String) (req : ChatRequest)
    (p : ProviderConnection) (t : Table ProviderConnection) where
  after_translate-IsCaptured :
      (o : Option HttpRequest) → FinishesCaptured (after_translate calls model req.stream p t o).0
  after_translate-IsCaptured none = tt
  after_translate-IsCaptured (some request) =
      after_do-IsCaptured calls.now calls.latency model req.stream p t (calls.send request)

  after_token-IsCaptured :
      (o : Option String) → FinishesCaptured (after_token calls model req p t o).0
  after_token-IsCaptured none = tt
  after_token-IsCaptured (some key) = after_translate-IsCaptured _

  try_provider-IsCaptured : FinishesCaptured (try_provider calls model req p t).0
  unfolding try_provider
  try_provider-IsCaptured = elim (Bool-cases (calls.has_adapter p.provider)) [
    | inl e ↦ rw e (after_token-IsCaptured (calls.token p))
    | inr e ↦ rw e tt
  ]

module _ {HttpRequest : Type 0} (calls : ℕ → ChatCalls HttpRequest) (req : ChatRequest) where
  try_candidates-IsCaptured :
      (model : String) (ps : List ProviderConnection) (t : Table ProviderConnection)
      → IsCaptured (try_candidates calls 0 "" model req ps t).0
  try_candidates-IsCaptured model ps t = elim (first_deciding_candidate calls model req ps t) [
    | inl d ↦ subst FinishesCaptured d.decides (try_provider-IsCaptured _ model req d.p _)
    | inr g ↦ inl (ap (λ out. out.0.captured_body) g.answer)
  ]

  run_candidates-IsCaptured :
      (m : Model) (t : Table ProviderConnection) (c : Option (List ProviderConnection))
      → IsCaptured (run_candidates calls m req t c).0
  run_candidates-IsCaptured m t none = inl refl
  run_candidates-IsCaptured m t (some ps) = try_candidates-IsCaptured m.model_id ps t

  on_target-IsCaptured :
      (routed : String → Selection (List ProviderConnection)) (t : Table ProviderConnection)
      (target : Option Model)
      → IsCaptured (on_target routed calls req t target).0
  on_target-IsCaptured routed t none = inl refl
  on_target-IsCaptured routed t (some m) =
      run_candidates-IsCaptured m t (candidates_for (routed m.model_id) m t)

  execute_direct_request-IsCaptured :
      (routed : String → Selection (List ProviderConnection)) (t : Table ProviderConnection)
      (models : List Model)
      → IsCaptured (execute_direct_request routed calls req (listed models) t).0
  unfolding execute_direct_request
  execute_direct_request-IsCaptured routed t models = on_target-IsCaptured routed t _

-- The JSON object of a whole answer: of a provider with status 200, or of a combo.
abbrev pub body_of : (String → Option Body) → Reply → Option Body
body_of parse_json (failure message error_type code status) = none
body_of parse_json (passed_on status body) = if status == 200 then parse_json body else none
body_of parse_json (streamed body) = none
body_of parse_json (encoded body) = body
body_of parse_json (chunked body) = body

-- The object has a member "usage", an object whose member of that name is this number, or 0 if it is no number.
abbrev pub IsCounted : String → Body → ℤ → Type 0
IsCounted name body n =
    (fields : Assoc Field) × (lookup "usage" body ≡ some (object fields))
    × (n ≡ int_or_zero (lookup name fields))

-- The quotas are as they were, or the user's is charged for the answer: its total tokens, and the price of its prompt
-- and its completion tokens for a model of some name.
abbrev pub ChargedFor :
    (String → Option Body) → List Model → ℕ → String → Reply → Table Quota → Table Quota → Type 0
ChargedFor parse_json models now user_id reply quotas quotas' =
    (quotas' ≡ quotas)
    ⊎ ((body : Body) × (total : ℤ) × (prompt : ℤ) × (completion : ℤ) × (model : String) × (str_eq
            user_id ""
          ≡ false)
        × (body_of parse_json reply ≡ some body)
        × IsCounted "total_tokens" body total
        × IsCounted "prompt_tokens" body prompt
        × IsCounted "completion_tokens" body completion
        × (quotas'
            ≡ after quotas (
                increment_usage now user_id total
                  (calculate_model_cost models model prompt completion) quotas)))

-- What the usage was read from.
abbrev IsReadFrom : (String → Option Body) → Option TokenUsage → Reply → Type 0
IsReadFrom parse_json none reply = Unit
IsReadFrom parse_json (some usage) reply =
    (body : Body) × (body_of parse_json reply ≡ some body)
    × IsCounted "total_tokens" body usage.total_tokens
    × IsCounted "prompt_tokens" body usage.prompt_tokens
    × IsCounted "completion_tokens" body usage.completion_tokens

usage_in-IsReadFrom :
    (parse_json : String → Option Body) (reply : Reply) (body : Body) (o : Option Value)
    → lookup "usage" body ≡ o
    → body_of parse_json reply ≡ some body
    → IsReadFrom parse_json (usage_in o) reply
usage_in-IsReadFrom parse_json reply body none e h = tt
usage_in-IsReadFrom parse_json reply body (some ignored) e h = tt
usage_in-IsReadFrom parse_json reply body (some (text s)) e h = tt
usage_in-IsReadFrom parse_json reply body (some (object fields)) e h =
    (body, h, (fields, e, refl), (fields, e, refl), (fields, e, refl))

extract_usage-IsReadFrom :
    (parse_json : String → Option Body) (reply : Reply) (b : Option Body)
    → body_of parse_json reply ≡ b
    → IsReadFrom parse_json (extract_usage b) reply
unfolding extract_usage
extract_usage-IsReadFrom parse_json reply none h = tt
extract_usage-IsReadFrom parse_json reply (some body) h =
    usage_in-IsReadFrom parse_json reply body (lookup "usage" body) refl h

charge-ChargedFor :
    (parse_json : String → Option Body) (models : List Model) (model : String) (now status : ℕ)
    (user_id : String) (usage : Option TokenUsage) (reply : Reply) (quotas : Table Quota)
    → IsReadFrom parse_json usage reply
    → ChargedFor parse_json models now user_id reply quotas
        (charge now status user_id (cost_of models model usage) usage quotas)
unfolding charge
charge-ChargedFor parse_json models model now status user_id none reply quotas h = inl refl
charge-ChargedFor parse_json models model now status user_id (some u) reply quotas h =
    elim (Bool-cases (str_eq user_id "")) [
      | inl nobody ↦ inl (ground arith)
      | inr named ↦ elim (Bool-cases (is_success status)) [
        | inl ok ↦ inr (
          h.0,
          u.total_tokens,
          u.prompt_tokens,
          u.completion_tokens,
          model,
          named,
          h.1,
          h.2,
          h.3,
          h.4,
          rw (ok, named) refl,
        )
        | inr failing ↦ inl (rw failing refl)
      ]
    ]

module _ {HttpRequest ComboRequest ComboReply : Type 0}
    (world : Outside HttpRequest ComboRequest ComboReply) where
  abbrev user : String
  user = user_of world.recording.claims world.recording.validation

  captured-IsReadFrom :
      (out : Outcome)
      → IsCaptured out
      → IsReadFrom world.parse_json (captured_usage world.parse_json out) out.reply
  unfolding captured_usage
  captured-IsReadFrom out c = elim (Bool-cases (out.status_code == 200)) [
    | inr e ↦ rw e tt
    | inl e ↦ elim c [ inl f ↦ rw (e, f) tt | inr f ↦ rw (e, f.1) (whole_body out.reply f.0 f.2) ]
  ]
    where
      whole_body :
          (reply : Reply) (body : String)
          → reply ≡ passed_on 200 body
          → IsReadFrom world.parse_json (extract_usage (world.parse_json body)) reply
      whole_body reply body f =
          extract_usage-IsReadFrom world.parse_json reply (world.parse_json body)
            (ap (body_of world.parse_json) f)

  recorded-ChargedFor :
      (req : ChatRequest) (is_stream : Bool) (status : ℕ) (model provider : String)
      (usage : Option TokenUsage) (reply : Reply) (s : ChatState)
      → IsReadFrom world.parse_json usage reply
      → ChargedFor world.parse_json
          (list_enabled s.models)
          world.recording.now
          user
          reply
          s.quotas
          (recorded world req is_stream status model provider usage s).quotas
  unfolding recorded record_chat_usage list_enabled
  recorded-ChargedFor req is_stream status model provider usage reply s h =
      charge-ChargedFor world.parse_json (list_enabled s.models) model world.recording.now status
        user usage reply s.quotas h

  run_direct-ChargedFor :
      (req : ChatRequest) (is_stream : Bool) (s : ChatState)
      → ChargedFor world.parse_json
          (list_enabled s.models)
          world.recording.now
          user
          (run_direct world req is_stream s).0
          s.quotas
          (run_direct world req is_stream s).1.quotas
  unfolding run_direct
  run_direct-ChargedFor req is_stream s =
      let ran =
        execute_direct_request (world.routed s.providers) world.calls req
          (listed (list_enabled s.models)) s.providers in
      let captured =
        execute_direct_request-IsCaptured world.calls req (world.routed s.providers) s.providers
          (list_enabled s.models) in
      recorded-ChargedFor req is_stream ran.0.status_code ran.0.model ran.0.provider
        (captured_usage world.parse_json ran.0) ran.0.reply (record s { providers = ran.1 })
        (captured-IsReadFrom ran.0 captured)

  after_combo-ChargedFor :
      (req : ChatRequest) (s : ChatState) (answer : Option (ExecuteResponse Body))
      → ChargedFor world.parse_json
          (list_enabled s.models)
          world.recording.now
          user
          (after_combo world req s answer).0
          s.quotas
          (after_combo world req s answer).1.quotas
  unfolding after_combo run_direct
  after_combo-ChargedFor req s none = run_direct-ChargedFor req false s
  after_combo-ChargedFor req s (some answer) =
      recorded-ChargedFor req false 200 answer.model "" _ (encoded answer.response) s
        (extract_usage-IsReadFrom world.parse_json (encoded answer.response) answer.response refl)

  after_combo_stream-ChargedFor :
      (req : ChatRequest) (s : ChatState) (answer : Option (ExecuteResponse Body))
      → ChargedFor world.parse_json
          (list_enabled s.models)
          world.recording.now
          user
          (after_combo_stream world req s answer).0
          s.quotas
          (after_combo_stream world req s answer).1.quotas
  unfolding after_combo_stream run_direct
  after_combo_stream-ChargedFor req s none = run_direct-ChargedFor req true s
  after_combo_stream-ChargedFor req s (some answer) =
      recorded-ChargedFor req true 200 _ (text_or "" (member "provider" answer.response)) _
        (chunked answer.response) s
        (extract_usage-IsReadFrom world.parse_json (chunked answer.response) answer.response refl)

  -- What a chat request that passed the guards of `ServeHTTP` does to the quotas: either they are as they
  -- were, or the reply carries a whole answer, of a combo or of a provider with status 200, that is a JSON object with
  -- a usage, the user's id is not empty, and that user's quota has the usage's total tokens added and the
  -- price of its prompt and completion tokens by the enabled models for some name. So an error, and an
  -- answer that is streamed from a provider, is never charged.
  pub only_answers_charged :
      (req : ChatRequest) (s : ChatState)
      → ChargedFor world.parse_json
          (list_enabled s.models)
          world.recording.now
          (user_of world.recording.claims world.recording.validation)
          (handle world req s).0
          s.quotas
          (handle world req s).1.quotas
  unfolding handle handle_streaming handle_non_streaming
  only_answers_charged req s =
      either_way req.stream (handle_streaming world req s) (handle_non_streaming world req s)
        (after_combo_stream-ChargedFor req _ _) (after_combo-ChargedFor req _ _)
    where
      either_way :
          (b : Bool) (x y : Reply × ChatState)
          → ChargedFor world.parse_json
              (list_enabled s.models)
              world.recording.now
              user
              x.0
              s.quotas
              x.1.quotas
          → ChargedFor world.parse_json
              (list_enabled s.models)
              world.recording.now
              user
              y.0
              s.quotas
              y.1.quotas
          → ChargedFor world.parse_json
              (list_enabled s.models)
              world.recording.now
              user
              (if b then x else y).0
              s.quotas
              (if b then x else y).1.quotas
      either_way true x y hx hy = hx
      either_way false x y hx hy = hy
