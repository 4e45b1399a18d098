-- ===== src/Http/Response.antt =====
-- `Handle_response`: the QDMI status of a response, and the lines that it logs.
pub mod Classification
pub mod Confidential
use qdmi_on_iqm.Base.{
  ℕ, Bool, true, false, not, ◌&&◌, ◌||◌, Option, none, some, List, [], ◌∷◌, ◌++◌, Bytes, codes, ltb,
  leb, ◌==◌, is_some, is_empty, length, if◌then◌else◌,
}
use qdmi_on_iqm.Base.Decimal.{to_string}
use qdmi_on_iqm.Qdmi.{
  QdmiStatus, success, fatal, notfound, invalidargument, permissiondenied, timeout,
}
use qdmi_on_iqm.Json.{JsonLib, array_member, string_member}
use qdmi_on_iqm.Logging.{Line, LogLevel, error, info, debug}
use qdmi_on_iqm.Http.Budget.{Response, TransportError}

pub data ErrorLogPolicy : Type 0 where
  log_as_error log_as_debug : ErrorLogPolicy

abbrev pub at_level : LogLevel → Bytes → Line
at_level level text = record { level = level; text = text }

-- `Log_error`.
log_error : ErrorLogPolicy → Bytes → Line
log_error log_as_debug message = at_level debug message
log_error log_as_error message = at_level error message

-- The last part of `Handle_response`.
map_status_code : ℕ → QdmiStatus
map_status_code code =
    if code == 401 || code == 403
    then permissiondenied
    else if code == 404
    then notfound
    else if code == 408 || code == 504
    then timeout
    else if code == 400 || leb 402 code && ltb code 500
    then invalidargument
    else fatal

error_context : Bytes → ℕ → Bytes
error_context url code =
    let context =
      codes "Request to URL '" ++ url ++ codes "' failed with HTTP " ++ to_string code in
    if leb 400 code && ltb code 500
    then context ++ codes " (Client Error)"
    else if leb 500 code && ltb code 600
    then context ++ codes " (Server Error)"
    else if leb 300 code && ltb code 400
    then context ++ codes " (Unexpected Redirect)"
    else context ++ codes " (Unexpected Response Code)"

-- The message of libcurl and cpr for a failed transfer, which is not part of the repository.
module _ (lib : JsonLib) (error_message : TransportError → Bytes) where
  open lib use {Json, parse, find}

  abbrev text_or_empty : Option Bytes → Bytes
  text_or_empty none = []
  text_or_empty (some text) = text

  abbrev unless_empty : Line → Bytes → List Line
  unless_empty line [] = []
  unless_empty line (c ∷ s) = line ∷ []

  message_texts : List Json → List Line
  message_texts [] = []
  message_texts (message ∷ rest) =
      let text = text_or_empty (string_member lib message (codes "message")) in
      unless_empty (at_level debug (codes "  - " ++ text)) text ++ message_texts rest

  -- "[code] message", of the members that are strings.
  error_text : Json → Bytes
  error_text j =
      let code = string_member lib j (codes "error_code") in
      (if is_some code then codes "[" ++ text_or_empty code ++ codes "] " else [])
      ++ text_or_empty (string_member lib j (codes "message"))

  error_texts : ErrorLogPolicy → List Json → List Line
  unfolding error_text log_error
  error_texts policy [] = []
  error_texts policy (e ∷ rest) =
      let text = error_text e in
      unless_empty (log_error policy (codes "  - " ++ text)) text ++ error_texts policy rest

  -- The `messages` array, under a heading that names its size.
  messages : Bytes → Option Json → List Line
  unfolding message_texts
  messages heading none = []
  messages heading (some j) =
      let found = array_member lib j (codes "messages") in
      if is_empty found
      then []
      else at_level debug (codes "Response contains " ++ to_string (length found) ++ heading)
        ∷ message_texts found

  -- The `errors` array.
  listed_errors : ErrorLogPolicy → Option Json → List Line
  unfolding error_texts
  listed_errors policy none = []
  listed_errors policy (some j) =
      let found = array_member lib j (codes "errors") in
      if is_empty found
      then []
      else log_error policy
          (codes "Response contains " ++ to_string (length found) ++ codes " error(s):")
        ∷ error_texts policy found

  -- One error at the root of the document.
  root_error : ErrorLogPolicy → Option Json → List Line
  unfolding error_text log_error
  root_error policy none = []
  root_error policy (some j) =
      let text = error_text j in
      if is_some (find j (codes "error_code")) || is_some (find j (codes "message"))
      then unless_empty (log_error policy (codes "Error: " ++ text)) text
      else []

  -- The structured errors: those of the array where it holds any, else the one at the root.
  structured : ErrorLogPolicy → Option Json → List Line
  unfolding listed_errors root_error
  structured policy json =
      let listed = listed_errors policy json in
      if is_empty listed then root_error policy json else listed

  content_type : Option Bytes → Bytes
  content_type none = codes "an unnamed content type"
  content_type (some name) = name

  -- What is said of a body without a structured error.
  unstructured : ErrorLogPolicy → Response → List Line
  unfolding content_type
  unstructured log_as_error r =
      at_level error (
        codes "Response carries no structured error: "
        ++ to_string (length r.text)
        ++ codes " byte(s) of "
        ++ content_type (r.header (codes "content-type"))
        ++ codes ", logged at DEBUG level")
      ∷ at_level debug (codes "Response: " ++ r.text)
      ∷ []
  unstructured log_as_debug r = at_level debug (codes "Response: " ++ r.text) ∷ []

  -- The parsed body: none where it is empty or no JSON.
  body_json : Bytes → Option Json
  body_json [] = none
  body_json (c ∷ s) = parse (c ∷ s)

  failure_lines : ErrorLogPolicy → Response → Option Json → List Line
  unfolding structured unstructured messages log_error error_context
  failure_lines policy r json =
      let errors = structured policy json in
      (log_error policy (error_context r.url r.status_code) ∷ errors)
      ++ ((if is_empty errors && not (is_empty r.text) then unstructured policy r else [])
          ++ messages (codes " additional message(s):") json)

  not_json : Bytes → Option Json → List Line
  not_json [] json = []
  not_json (c ∷ s) none = at_level debug (codes "Response is not valid JSON") ∷ []
  not_json (c ∷ s) (some j) = []

  answered : ErrorLogPolicy → Response → QdmiStatus × List Line
  unfolding body_json not_json messages failure_lines map_status_code
  answered policy r =
      let json = body_json r.text in
      if leb 200 r.status_code && ltb r.status_code 300
      then (
        success,
        not_json r.text json
            ++ (messages (codes " message(s):") json
                ++ at_level info
                    (codes "Request successful (HTTP " ++ to_string r.status_code ++ codes ")")
                  ∷ []),
      )
      else (map_status_code r.status_code, not_json r.text json ++ failure_lines policy r json)

  refused : ErrorLogPolicy → Response → Option TransportError → QdmiStatus × List Line
  unfolding answered log_error
  refused policy r none = answered policy r
  refused policy r (some e) =
      (fatal, log_error policy (codes "Request failed: " ++ error_message e) ∷ [])

  unfoldable pub handle_response : Response → ErrorLogPolicy → QdmiStatus × List Line
  unfolding refused
  handle_response r policy = refused policy r r.error
