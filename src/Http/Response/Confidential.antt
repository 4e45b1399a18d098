-- ===== src/Http/Response/Confidential.antt =====
-- What of a response reaches the log above the DEBUG level.
use qdmi_on_iqm.Base.{
  ℕ, ◌≡◌, refl, Bool, true, false, Option, none, some, List, [], ◌∷◌, ◌++◌, Bytes, codes, length,
  arith, All, All-append, ◌≢◌, is_empty, if_intro, is_some, ◌||◌, not, Bool-cases, inl, inr, leb,
  ltb, ◌&&◌,
}
use qdmi_on_iqm.Base.Decimal.{to_string}
use qdmi_on_iqm.Json.{JsonLib, array_member}
use qdmi_on_iqm.Logging.{Line, LogLevel, error, info, debug}
use qdmi_on_iqm.Http.Budget.{Response, TransportError}
use qdmi_on_iqm.Http.Response.{
  ErrorLogPolicy, log_as_error, log_as_debug, log_error, unless_empty, message_texts, error_texts,
  messages, listed_errors, root_error, structured, unstructured, not_json, error_context,
  failure_lines, at_level, answered, refused, handle_response,
}

abbrev is_debug : LogLevel → Bool
is_debug debug = true
is_debug _ = false

-- The lines above the DEBUG level.
abbrev pub shown : List Line → List Line
shown [] = []
shown (line ∷ rest) =
    let others = shown rest in elim (is_debug line.level) [ true ↦ others | false ↦ line ∷ others ]

abbrev pub NotError : Line → Type 0
NotError line = line.level ≢ error

module _ (lib : JsonLib) (error_message : TransportError → Bytes) where
  open lib use {Json, parse, find}

  plain_body :
      (r : Response) (c c' : ℕ) (s s' : Bytes) (policy : ErrorLogPolicy)
      → parse (c ∷ s) ≡ none
      → parse (c' ∷ s') ≡ none
      → length s ≡ length s'
      → shown (answered lib error_message policy (record r { text = c ∷ s })).1
        ≡ shown (answered lib error_message policy (record r { text = c' ∷ s' })).1
  unfolding answered
  plain_body r c c' s s' log_as_error h h' e =
      rw (h, h', e)
        (elim (Bool-cases (leb 200 r.status_code && ltb r.status_code 300)) [
          | inl ok ↦ rw ok
          | inr bad ↦ rw bad
        ])
  plain_body r c c' s s' log_as_debug h h' e =
      rw (h, h')
        (elim (Bool-cases (leb 200 r.status_code && ltb r.status_code 300)) [
          | inl ok ↦ rw ok
          | inr bad ↦ rw bad
        ])

  refused_body :
      (r : Response) (body body' : Bytes) (policy : ErrorLogPolicy) (error : Option TransportError)
      → parse body ≡ none
      → parse body' ≡ none
      → length body ≡ length body'
      → shown (refused lib error_message policy (record r { text = body }) error).1
        ≡ shown (refused lib error_message policy (record r { text = body' }) error).1
  unfolding refused
  refused_body r body body' policy (some x) h h' e = refl
  refused_body r [] [] policy none h h' e = refl
  refused_body r [] (c' ∷ s') policy none h h' e = absurd (omega arith)
  refused_body r (c ∷ s) [] policy none h h' e = absurd (omega arith)
  refused_body r (c ∷ s) (c' ∷ s') policy none h h' e =
      plain_body r c c' s s' policy h h' (omega arith)

  unless_empty-quiet :
      (text : Bytes) (message : Bytes)
      → All NotError (unless_empty lib error_message (log_error log_as_debug message) text)
  unfolding log_error
  unless_empty-quiet [] message = tt
  unless_empty-quiet (c ∷ s) message = ((λ h. cc), tt)

  message_texts-quiet : (found : List Json) → All NotError (message_texts lib error_message found)
  unfolding message_texts log_error
  message_texts-quiet [] = tt
  message_texts-quiet (m ∷ rest) =
      All-append NotError _ _ (unless_empty-quiet _ _) (message_texts-quiet rest)

  error_texts-quiet :
      (found : List Json) → All NotError (error_texts lib error_message log_as_debug found)
  unfolding error_texts
  error_texts-quiet [] = tt
  error_texts-quiet (m ∷ rest) =
      All-append NotError _ _ (unless_empty-quiet _ _) (error_texts-quiet rest)

  messages-quiet :
      (heading : Bytes) (json : Option Json)
      → All NotError (messages lib error_message heading json)
  unfolding messages
  messages-quiet heading none = tt
  messages-quiet heading (some j) =
      if_intro (All NotError) (is_empty (array_member lib j (codes "messages"))) (λ _. tt)
        (λ _. ((λ h. cc), message_texts-quiet _))

  listed_errors-quiet :
      (json : Option Json) → All NotError (listed_errors lib error_message log_as_debug json)
  unfolding listed_errors log_error
  listed_errors-quiet none = tt
  listed_errors-quiet (some j) =
      if_intro (All NotError) (is_empty (array_member lib j (codes "errors"))) (λ _. tt)
        (λ _. ((λ h. cc), error_texts-quiet _))

  root_error-quiet :
      (json : Option Json) → All NotError (root_error lib error_message log_as_debug json)
  unfolding root_error
  root_error-quiet none = tt
  root_error-quiet (some j) =
      if_intro (All NotError)
        (is_some (find j (codes "error_code")) || is_some (find j (codes "message")))
        (λ _. unless_empty-quiet _ _) (λ _. tt)

  structured-quiet :
      (json : Option Json) → All NotError (structured lib error_message log_as_debug json)
  unfolding structured
  structured-quiet json =
      if_intro (All NotError) (is_empty (listed_errors lib error_message log_as_debug json))
        (λ _. root_error-quiet json) (λ _. listed_errors-quiet json)

  not_json-quiet :
      (text : Bytes) (json : Option Json) → All NotError (not_json lib error_message text json)
  unfolding not_json
  not_json-quiet [] json = tt
  not_json-quiet (c ∷ s) none = ((λ h. cc), tt)
  not_json-quiet (c ∷ s) (some j) = tt

  failure_lines-quiet :
      (r : Response) (json : Option Json)
      → All NotError (failure_lines lib error_message log_as_debug r json)
  unfolding failure_lines
  failure_lines-quiet r json =
      All-append NotError
        (log_error log_as_debug (error_context r.url r.status_code)
          ∷ structured lib error_message log_as_debug json)
        _ ((λ h. cc), structured-quiet json)
        (All-append NotError _ _
          (if_intro (All NotError)
            (is_empty (structured lib error_message log_as_debug json) && not (is_empty r.text))
            {x = unstructured lib error_message log_as_debug r} {y = []} (λ _. ((λ h. cc), tt))
            (λ _. tt))
          (messages-quiet (codes " additional message(s):") json))

  abbrev success_line : ℕ → Line
  success_line code =
      at_level info (codes "Request successful (HTTP " ++ to_string code ++ codes ")")

  answered-quiet : (r : Response) → All NotError (answered lib error_message log_as_debug r).1
  unfolding answered
  answered-quiet r = elim (Bool-cases (leb 200 r.status_code && ltb r.status_code 300)) [
    | inl ok ↦ rw ok (
        All-append NotError _ _ (not_json-quiet r.text _) (
          All-append NotError (messages lib error_message (codes " message(s):") _)
            (success_line r.status_code ∷ []) (messages-quiet _ _) ((λ h. cc), tt)))
    | inr bad ↦ rw bad (All-append NotError _ _ (not_json-quiet r.text _) (failure_lines-quiet r _))
  ]

  refused-quiet :
      (r : Response) (error : Option TransportError)
      → All NotError (refused lib error_message log_as_debug r error).1
  unfolding refused
  refused-quiet r none = answered-quiet r
  refused-quiet r (some e) = ((λ h. cc), tt)

  -- Under the policy `log_as_debug` no response leaves a line at the ERROR level.
  pub log_as_debug_quiet :
      (r : Response) → All NotError (handle_response lib error_message r log_as_debug).1
  unfolding handle_response
  log_as_debug_quiet r = refused-quiet r r.error

  -- Two responses that differ at most in their bodies, where neither body is JSON and both are
  -- equally long, leave the same lines above the DEBUG level: of such a body only its length is
  -- shown.
  pub body_not_shown :
      (r : Response) (body body' : Bytes) (policy : ErrorLogPolicy)
      → parse body ≡ none
      → parse body' ≡ none
      → length body ≡ length body'
      → shown (handle_response lib error_message (record r { text = body }) policy).1
        ≡ shown (handle_response lib error_message (record r { text = body' }) policy).1
  unfolding handle_response
  body_not_shown r body body' policy h h' e = refused_body r body body' policy r.error h h' e
