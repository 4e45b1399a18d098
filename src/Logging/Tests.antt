-- ===== src/Logging/Tests.antt =====
-- Runs of the logger, and instances of its theorems.
use qdmi_on_iqm.Base.{◌≡◌, refl, Option, none, some, [], ◌∷◌, Bytes, codes, bytes_eq, if◌then◌else◌}
use qdmi_on_iqm.Logging.{info, new_logger, level_from_environment}
use qdmi_on_iqm.Logging.Levels.{notice, Noted, new_logger-Noted}

abbrev named : Bytes → Option Bytes
named key = if bytes_eq key (codes "IQM_LOG_LEVEL") then some (codes "INFO") else none

abbrev both_named : Bytes → Option Bytes
both_named key =
    if bytes_eq key (codes "IQM_CPP_API_LOG_LEVEL") then some (codes "DEBUG") else named key

level_of_both : level_from_environment both_named ≡ info
unfolding level_from_environment bytes_eq
level_of_both = refl

abbrev alias_only : Bytes → Option Bytes
alias_only key = if bytes_eq key (codes "IQM_CPP_API_LOG_LEVEL") then some (codes "DEBUG") else none

alias_output : (new_logger alias_only).output ≡ notice ∷ []
unfolding new_logger level_from_environment bytes_eq
alias_output = refl

new_logger-Noted_example : Noted none (some (codes "DEBUG")) (new_logger alias_only).output
unfolding bytes_eq
new_logger-Noted_example = new_logger-Noted alias_only
