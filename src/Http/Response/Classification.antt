-- ===== src/Http/Response/Classification.antt =====
-- Which QDMI status stands for which response.
use qdmi_on_iqm.Base.{
  ℕ, ◌≤◌, ◌<◌, ◌≡◌, ◌≢◌, ◌↔◌, ◌⊎◌, Option, none, some, Bytes, is_some, true, arith,
}
use qdmi_on_iqm.Qdmi.{
  QdmiStatus, success, fatal, notfound, invalidargument, permissiondenied, timeout,
}
use qdmi_on_iqm.Json.{JsonLib}
use qdmi_on_iqm.Http.Budget.{Response, TransportError}
use qdmi_on_iqm.Http.Response.{ErrorLogPolicy, refused, handle_response}

module _ (lib : JsonLib) (error_message : TransportError → Bytes) where
  abbrev pub Classified : QdmiStatus → Option TransportError → ℕ → Type 0
  Classified s error code =
      ((s ≡ success) ↔ ((error ≡ none) × (200 ≤ code) × (code < 300)))
      × ((s ≡ permissiondenied) ↔ ((error ≡ none) × ((code ≡ 401) ⊎ (code ≡ 403))))
      × ((s ≡ notfound) ↔ ((error ≡ none) × (code ≡ 404)))
      × ((s ≡ timeout) ↔ ((error ≡ none) × ((code ≡ 408) ⊎ (code ≡ 504))))
      × ((s ≡ invalidargument) ↔ (
          (error ≡ none)
          × (400 ≤ code)
          × (code < 500)
          × (code ≢ 401)
          × (code ≢ 403)
          × (code ≢ 404)
          × (code ≢ 408)))
      × ((s ≡ fatal) ↔ (
          (is_some error ≡ true)
          ⊎ (code < 200)
          ⊎ ((300 ≤ code) × (code < 400))
          ⊎ ((500 ≤ code) × (code ≢ 504))))

  refused-Classified :
      (policy : ErrorLogPolicy) (r : Response) (error : Option TransportError)
      → Classified (refused lib error_message policy r error).0 error r.status_code
  unfolding refused
  refused-Classified policy r none = (
    (λ h. ground arith, λ h. ground arith),
    (λ h. ground arith, λ h. ground arith),
    (λ h. ground arith, λ h. ground arith),
    (λ h. ground arith, λ h. ground arith),
    (λ h. ground arith, λ h. ground arith),
    (λ h. ground arith, λ h. ground arith),
  )
  refused-Classified policy r (some e) = (
    (λ h. cc, λ h. cc (h.0)),
    (λ h. cc, λ h. cc (h.0)),
    (λ h. cc, λ h. cc (h.0)),
    (λ h. cc, λ h. cc (h.0)),
    (λ h. cc, λ h. cc (h.0)),
    (λ h. ground arith, λ h. ground arith),
  )

  -- The status of a response is `success` exactly for a 2xx code without a transport error, and
  -- `permissiondenied`, `notfound`, `timeout` and `invalidargument` exactly for the client errors
  -- and the gateway timeout that are listed; it is `fatal` exactly for a transport error and for
  -- all other codes. The body, the headers and the log policy do not count.
  pub handle_response-Classified :
      (r : Response) (policy : ErrorLogPolicy)
      → Classified (handle_response lib error_message r policy).0 r.error r.status_code
  unfolding handle_response
  handle_response-Classified r policy = refused-Classified policy r r.error
