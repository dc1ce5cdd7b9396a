-- ===== src/Streaming.antt =====
-- gorouter/internal/streaming/stream.go: `StreamResponse`, on the lines that the scanner gives. With each line comes
-- whether the context is done when it is read; what is written is a list of events.
pub mod Sends
use yi_api_proxy.Base.{
  ◌≡◌, refl, sym, ap, ◌∙◌, String, Bool, true, false, List, [], ◌∷◌, ◌++◌, Option, none, some,
  if◌then◌else◌, ◌&&◌, map, Bool-cases, inl, inr,
}
use yi_api_proxy.Base.Text.{codes, bytes_eq, has_prefix, slice_from}
use yi_api_proxy.Rtk.{Line}

pub data StreamEvent : Type 0 where
  data_event : Line → StreamEvent
  done_event : StreamEvent
  empty_line : StreamEvent

pub data StreamError : Type 0 where
  unsupported cancelled : StreamError
  scan_failed : String → StreamError

abbrev pub is_data : Line → Bool
is_data line = has_prefix line (codes "data: ")

abbrev pub is_done : Line → Bool
is_done line = is_data line && bytes_eq (slice_from 6 line) (codes "[DONE]")

-- What one line is passed on as.
abbrev pub event_of_line : Line → List StreamEvent
event_of_line line =
    if is_data line
    then data_event (slice_from 6 line) ∷ []
    else if bytes_eq line []
    then empty_line ∷ []
    else []

abbrev pub after_events :
    List StreamEvent → List StreamEvent × Option StreamError → List StreamEvent × Option StreamError
after_events events (more, err) = (events ++ more, err)

abbrev pub scan_error : Option String → Option StreamError
scan_error none = none
scan_error (some message) = some (scan_failed message)

-- The loop; `failure` is the error of the scanner at the end.
unfoldable pub stream_lines :
    Option String → List (Bool × Line) → List StreamEvent × Option StreamError
stream_lines failure [] = ([], scan_error failure)
stream_lines failure ((is_cancelled, line) ∷ lines) =
    let rest = stream_lines failure lines in
    if is_cancelled
    then ([], some cancelled)
    else if is_data line && bytes_eq (slice_from 6 line) (codes "[DONE]")
    then (done_event ∷ [], none)
    else after_events (event_of_line line) rest

-- `flushes`: the writer is an `http.Flusher`.
unfoldable pub stream_response :
    Bool → Option String → List (Bool × Line) → List StreamEvent × Option StreamError
unfolding stream_lines
stream_response flushes failure lines =
    if flushes then stream_lines failure lines else ([], some unsupported)

-- The lines before the first one that says that the stream is done, and whether there is one.
abbrev pub before_done : List Line → List Line × Bool
before_done [] = ([], false)
before_done (line ∷ lines) =
    let rest = before_done lines in if is_done line then ([], true) else (line ∷ rest.0, rest.1)
