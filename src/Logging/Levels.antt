-- ===== src/Logging/Levels.antt =====
-- Which level the environment selects, and what reaches the output under a level.
use qdmi_on_iqm.Base.{
  ℕ, ◌≡◌, refl, sym, ◌↔◌, ◌⊎◌, inl, inr, Bool-cases, true, false, bytes_eq, if_intro, Option, none,
  some, List, [], ◌∷◌, Bytes, codes, leb, is_some, not, is_empty, arith, if◌then◌else◌,
}
use mathlib.Core.Path.{subst}
use qdmi_on_iqm.Base.Dict.{bytes_eq→eq}
use qdmi_on_iqm.Logging.{
  rank, Line, Logger, notice_text, nonempty, deprecation_notice, write, new_logger, error,
  level_from_name, level_from_environment, first_named,
}

-- Where `IQM_LOG_LEVEL` is set and not empty, the new logger and its output are the same under any
-- environment that gives it the same value, whatever `IQM_CPP_API_LOG_LEVEL` is; and nothing has
-- been written.
pub new_logger_ignores_alias :
    (env env' : Bytes → Option Bytes) (c : ℕ) (s : Bytes)
    → env (codes "IQM_LOG_LEVEL") ≡ some (c ∷ s)
    → env' (codes "IQM_LOG_LEVEL") ≡ some (c ∷ s)
    → (new_logger env ≡ new_logger env') × ((new_logger env).output ≡ [])
unfolding new_logger
new_logger_ignores_alias env env' c s h h' = (rw (h, h'), rw h)

notice_cases :
    (a b : Option Bytes)
    → (is_empty (
          if is_some (nonempty a)
          then []
          else if not (is_some (nonempty b))
          then []
          else notice_text)
        ≡ false)
      ↔ ((nonempty a ≡ none) × ((c : ℕ) × (s : Bytes) × (b ≡ some (c ∷ s))))
notice_cases none none = (λ h. cc, λ h. cc (h.1.2))
notice_cases none (some []) = (λ h. cc, λ h. ground arith)
notice_cases none (some (c ∷ s)) = (λ _. (refl, (c, s, refl)), λ _. refl)
notice_cases (some []) none = (λ h. cc, λ h. cc (h.1.2))
notice_cases (some []) (some []) = (λ h. cc, λ h. ground arith)
notice_cases (some []) (some (c ∷ s)) = (λ _. (refl, (c, s, refl)), λ _. refl)
notice_cases (some (x ∷ r)) b = (λ h. cc, λ h. cc (h.0))

-- The deprecation notice is there exactly if `IQM_LOG_LEVEL` is unset or empty and
-- `IQM_CPP_API_LOG_LEVEL` is set and not empty.
pub deprecation_notice_iff :
    (env : Bytes → Option Bytes)
    → (is_empty (deprecation_notice env) ≡ false) ↔ (
        (nonempty (env (codes "IQM_LOG_LEVEL")) ≡ none)
        × ((c : ℕ) × (s : Bytes) × (env (codes "IQM_CPP_API_LOG_LEVEL") ≡ some (c ∷ s))))
unfolding deprecation_notice
deprecation_notice_iff env =
    notice_cases (env (codes "IQM_LOG_LEVEL")) (env (codes "IQM_CPP_API_LOG_LEVEL"))

-- The names that select a level at which errors are written.
abbrev pub IsLevelName : Bytes → Type 0
IsLevelName name = (name ≡ codes "ERROR") ⊎ (name ≡ codes "INFO") ⊎ (name ≡ codes "DEBUG")

level_named :
    (name : Bytes) → leb (rank error) (rank (level_from_name name)) ≡ true → IsLevelName name
unfolding level_from_name rank
level_named name h = elim (Bool-cases (bytes_eq name (codes "ERROR"))) [
  | inl e ↦ inl (bytes_eq→eq name (codes "ERROR") e)
  | inr e ↦ elim (Bool-cases (bytes_eq name (codes "INFO"))) [
    | inl i ↦ inr (inl (bytes_eq→eq name (codes "INFO") i))
    | inr i ↦ elim (Bool-cases (bytes_eq name (codes "DEBUG"))) [
      | inl d ↦ inr (inr (bytes_eq→eq name (codes "DEBUG") d))
      | inr d ↦ absurd (ground arith)
    ]
  ]
]

named_level :
    (name : Bytes) → IsLevelName name → leb (rank error) (rank (level_from_name name)) ≡ true
unfolding level_from_name rank bytes_eq
named_level name (inl e) = rw e refl
named_level name (inr (inl e)) = rw e refl
named_level name (inr (inr e)) = rw e refl

-- The deprecation notice as a line.
abbrev pub notice : Line
notice = record { level = error; text = notice_text }

-- The deprecated variable alone is used, and names a level.
abbrev pub UsesAlias : Option Bytes → Option Bytes → Type 0
UsesAlias name alias = (nonempty name ≡ none) × ((a : Bytes) × (alias ≡ some a) × IsLevelName a)

-- The output of a new logger, by the values of the two variables.
abbrev pub Noted : Option Bytes → Option Bytes → List Line → Type 0
Noted name alias output =
    ((output ≡ notice ∷ []) × UsesAlias name alias) ⊎ ((output ≡ []) × ¬ UsesAlias name alias)

some_bytes_eq : {s t : Bytes} → some s ≡ some t → s ≡ t
some_bytes_eq h = cc

empty-IsLevelName : IsLevelName [] → ⊥
empty-IsLevelName (inl e) = ground arith
empty-IsLevelName (inr (inl e)) = ground arith
empty-IsLevelName (inr (inr e)) = ground arith

alias_written :
    (name : Option Bytes) (c : ℕ) (s : Bytes)
    → nonempty name ≡ none
    → Noted name
        (some (c ∷ s))
        (write error notice_text
          (record { current_level = level_from_name (c ∷ s); output = [] })).output
unfolding write
alias_written name c s unset =
    if_intro (λ (logger : Logger). Noted name (some (c ∷ s)) logger.output)
      (leb (rank error) (rank (level_from_name (c ∷ s))))
      (λ covers. inl (refl, (unset, (c ∷ s, refl, level_named (c ∷ s) covers))))
      (λ silent_level. inr (
        refl,
        λ (_, (a, same, named)).
            let covered =
              subst (λ x. leb (rank error) (rank (level_from_name x)) ≡ true)
                (sym (some_bytes_eq same)) (named_level a named) in
            ground arith,
      ))

Noted-cases :
    (a b : Option Bytes)
    → Noted a b
        (let logger : Logger = record {
          current_level = first_named (nonempty a) (nonempty b);
          output = [];
        } in
          let text =
            if is_some (nonempty a)
            then []
            else if not (is_some (nonempty b))
            then []
            else notice_text in
          if not (is_empty text) then write error text logger else logger).output
Noted-cases none none = inr (refl, λ h. let same = h.1.1 in ground arith)
Noted-cases none (some []) = inr (
  refl,
  λ (_, (a, same, named)). empty-IsLevelName (subst IsLevelName (sym (some_bytes_eq same)) named),
)
Noted-cases none (some (c ∷ s)) = alias_written none c s refl
Noted-cases (some []) none = inr (refl, λ h. let same = h.1.1 in ground arith)
Noted-cases (some []) (some []) = inr (
  refl,
  λ (_, (a, same, named)). empty-IsLevelName (subst IsLevelName (sym (some_bytes_eq same)) named),
)
Noted-cases (some []) (some (c ∷ s)) = alias_written (some []) c s refl
Noted-cases (some (x ∷ r)) b = inr (refl, λ h. let set = h.0 in ground arith)

-- A new logger has written the deprecation notice, once and at the level ERROR, where
-- `IQM_LOG_LEVEL` is unset or empty and `IQM_CPP_API_LOG_LEVEL` is ERROR, INFO or DEBUG; in any
-- other environment it has written nothing.
pub new_logger-Noted :
    (env : Bytes → Option Bytes)
    → Noted
        (env (codes "IQM_LOG_LEVEL"))
        (env (codes "IQM_CPP_API_LOG_LEVEL"))
        (new_logger env).output
unfolding new_logger level_from_environment deprecation_notice
new_logger-Noted env =
    Noted-cases (env (codes "IQM_LOG_LEVEL")) (env (codes "IQM_CPP_API_LOG_LEVEL"))
