-- ===== src/Device/Session/Defaults.antt =====
-- `Get_nonempty_env_var` and `Apply_environment_session_defaults`.
pub mod Precedence
use qdmi_on_iqm.Base.{
  Bool, ◌||◌, Option, none, some, [], ◌∷◌, Bytes, codes, is_empty, is_some, if◌then◌else◌,
}
use qdmi_on_iqm.Http.Budget.{Environment}
use qdmi_on_iqm.Device.Session.{Session}

abbrev nonempty : Option Bytes → Option Bytes
nonempty none = none
nonempty (some []) = none
nonempty (some (c ∷ s)) = some (c ∷ s)

unfoldable pub nonempty_env_var : Environment → Bytes → Option Bytes
nonempty_env_var env name = nonempty (env name)

-- The first variable that is set, or the second.
abbrev pub or_else : Option Bytes → Option Bytes → Option Bytes
or_else none second = second
or_else (some s) second = some s

default_base_url : Session → Option Bytes → Session
default_base_url s none = s
default_base_url s (some url) = if is_empty s.base_url then record s { base_url = url } else s

default_id : Session → Option Bytes → Session
default_id s none = s
default_id s (some id) = record s { quantum_computer_id = some id }

default_alias : Session → Option Bytes → Session
default_alias s none = s
default_alias s (some alias) = record s { quantum_computer_alias = some alias }

unfoldable pub apply_environment_session_defaults : Environment → Session → Session
unfolding nonempty_env_var default_base_url default_id default_alias
apply_environment_session_defaults env s =
    let server =
      or_else (nonempty_env_var env (codes "IQM_SERVER_URL"))
        (nonempty_env_var env (codes "IQM_BASE_URL")) in
    let located = default_base_url s server in
    let alias =
      or_else (nonempty_env_var env (codes "IQM_QUANTUM_COMPUTER"))
        (nonempty_env_var env (codes "IQM_QC_ALIAS")) in
    if is_some s.quantum_computer_id || is_some s.quantum_computer_alias
    then located
    else default_alias (default_id located (nonempty_env_var env (codes "IQM_QC_ID"))) alias
