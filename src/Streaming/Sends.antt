-- ===== src/Streaming/Sends.antt =====
-- gorouter/internal/streaming/stream.go: what a client is sent of a stream, described by the form of its lines.
use yi_api_proxy.Base.{◌≡◌, String, List, [], ◌∷◌, ◌++◌, Option, none, some}
use yi_api_proxy.Base.Text.{codes}
use yi_api_proxy.Base.Bytes.{BeginsWith}
use yi_api_proxy.Rtk.{Line}
use yi_api_proxy.Streaming.{
  StreamEvent, data_event, done_event, empty_line, StreamError, scan_failed,
}

-- `Sends lines events err`: of these lines the client is sent those events, and the error is returned.
pub data Sends (failure : Option String)
    : List Line → List StreamEvent → Option StreamError → Type 0 where
  ended_well : failure ≡ none → Sends failure [] [] none
  ended_badly :
      (message : String) → failure ≡ some message → Sends failure [] [] (some (scan_failed message))
  closing :
      (line : Line) (lines : List Line)
      → line ≡ codes "data: [DONE]"
      → Sends failure (line ∷ lines) (done_event ∷ []) none
  data_line :
      (line payload : Line) (lines : List Line) (events : List StreamEvent)
      (err : Option StreamError)
      → line ≡ codes "data: " ++ payload
      → (payload ≡ codes "[DONE]" → ⊥)
      → Sends failure lines events err
      → Sends failure (line ∷ lines) (data_event payload ∷ events) err
  blank_line :
      (line : Line) (lines : List Line) (events : List StreamEvent) (err : Option StreamError)
      → line ≡ []
      → Sends failure lines events err
      → Sends failure (line ∷ lines) (empty_line ∷ events) err
  other_line :
      (line : Line) (lines : List Line) (events : List StreamEvent) (err : Option StreamError)
      → (BeginsWith (codes "data: ") line → ⊥)
      → (line ≡ [] → ⊥)
      → Sends failure lines events err
      → Sends failure (line ∷ lines) events err

abbrev pub SendsTo : Option String → List Line → List StreamEvent × Option StreamError → Type 0
SendsTo failure lines out = Sends failure lines out.0 out.1
