-- ===== src/Http/Transport.antt =====
-- What a request passes to the transport: `Resolve_ca_bundle` on Linux, and
-- `Clamp_timeout_for_transport`. `good` says which files can be opened.
use qdmi_on_iqm.Base.{
  ℕ, Bool, Option, none, some, List, [], ◌∷◌, Bytes, codes, leb, ltb, if◌then◌else◌,
}
use qdmi_on_iqm.Http.Budget.{Environment}

abbrev pub variables : List Bytes
variables = codes "CURL_CA_BUNDLE" ∷ codes "SSL_CERT_FILE" ∷ []

abbrev pub bundles : List Bytes
bundles =
    codes "/etc/ssl/certs/ca-certificates.crt"
    ∷ codes "/etc/pki/tls/certs/ca-bundle.crt"
    ∷ codes "/etc/ssl/ca-bundle.pem"
    ∷ codes "/etc/ssl/cert.pem"
    ∷ []

abbrev set_to : Option Bytes → Option Bytes → Option Bytes
set_to none rest = rest
set_to (some []) rest = rest
set_to (some (c ∷ s)) rest = some (c ∷ s)

-- The first variable with a value that is not empty.
unfoldable pub from_variables : Environment → List Bytes → Option Bytes
from_variables env [] = none
from_variables env (name ∷ names) = set_to (env name) (from_variables env names)

-- The first file that can be opened; the empty text where there is none.
unfoldable pub from_files : (Bytes → Bool) → List Bytes → Bytes
from_files good [] = []
from_files good (file ∷ files) = if good file then file else from_files good files

abbrev or_files : Option Bytes → Bytes → Bytes
or_files none file = file
or_files (some file) other = file

unfoldable pub resolve_ca_bundle : Environment → (Bytes → Bool) → Bytes
unfolding from_variables from_files
resolve_ca_bundle env good = or_files (from_variables env variables) (from_files good bundles)

-- `digits` are those of the representation that the transport accepts, with `maximum` as its
-- largest value; a count of milliseconds has 63.
unfoldable pub clamp_timeout_for_transport : ℕ → ℕ → ℕ → ℕ
clamp_timeout_for_transport digits maximum timeout =
    if leb 63 digits then timeout else if ltb maximum timeout then maximum else timeout
