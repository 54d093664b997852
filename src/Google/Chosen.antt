-- ===== src/Google/Chosen.antt =====
-- A workload identity that is chosen can get a token.
use policyengine_observabili.Base.{
  Text, Bool, true, false, Bool-cases, Option-cases, is_some, ◌≡◌, refl, ap, ◌∙◌, inl, inr, Option,
  none, some, List, [], ◌∷◌, All, arith,
}
use policyengine_observabili.Google.{
  Source, of_pool, of_file, of_json, variable, get_subject_token, has_subject_token, pool_env_names,
  pool_arguments, workload_identity_source, configured_source, chosen_source,
  workload_identity_provider_env,
}

module _ (getenv : Text → Option Text) where
  token-present :
      (names : List Text)
      → has_subject_token getenv names ≡ true
      → is_some (get_subject_token getenv names) ≡ true
  unfolding get_subject_token
  token-present [] h = absurd (ground (arith, h))
  token-present (name ∷ names) h = elim (Option-cases (variable getenv name)) [
    | inl e ↦
        rw (e, get_subject_token)
          (token-present names (ground (arith, h, ap (is_some {A = Text}) e)))
    | inr (t, e) ↦ rw (e, get_subject_token) refl
  ]

  -- What a source needs of the environment to be usable.
  abbrev pub IsBacked : Source → Type 0
  IsBacked (of_pool arguments) = is_some (get_subject_token getenv arguments.env_names) ≡ true
  IsBacked _ = Unit

  abbrev pub AllBacked : Option Source → Type 0
  AllBacked none = Unit
  AllBacked (some source) = IsBacked source

  workload-AllBacked : AllBacked (workload_identity_source getenv)
  unfolding workload_identity_source pool_arguments
  workload-AllBacked = elim (Bool-cases (has_subject_token getenv (pool_env_names getenv))) [
    | inr e ↦ rw e tt
    | inl e ↦ elim (Option-cases (variable getenv workload_identity_provider_env)) [
      | inl f ↦ rw e (rw f tt)
      | inr (p, f) ↦ rw e (rw f (token-present (pool_env_names getenv) e))
    ]
  ]

  abbrev source_of : (Text → Source) → Option Text → Option Source
  source_of make none = none
  source_of make (some value) = some (make value)

  abbrev file_source : Text → Option Source
  file_source env = source_of of_file (variable getenv env)

  abbrev json_source : Text → Option Source
  json_source env = source_of of_json (variable getenv env)

  abbrev pub first_source : List (Option Source) → Option Source
  first_source [] = none
  first_source (none ∷ sources) = first_source sources
  first_source (some source ∷ sources) = some source

  -- The sources in the order of preference.
  abbrev pub candidates : Text → Text → Bool → List (Option Source)
  candidates json_env file_env true =
      workload_identity_source getenv ∷ file_source file_env ∷ json_source json_env ∷ []
  candidates json_env file_env false =
      file_source file_env ∷ json_source json_env ∷ workload_identity_source getenv ∷ []

  first-of-three :
      (a b : Option Text) (rest : Option Source)
      → (elim a [
        | some path ↦ some (of_file path)
        | none ↦ elim b [ some json ↦ some (of_json json) | none ↦ rest ]
      ])
        ≡ first_source (source_of of_file a ∷ source_of of_json b ∷ rest ∷ [])
  first-of-three (some path) b rest = refl
  first-of-three none (some json) rest = refl
  first-of-three none none none = refl
  first-of-three none none (some source) = refl

  configured-first :
      (file_env json_env : Text) (rest : Option Source)
      → configured_source getenv file_env json_env rest
        ≡ first_source (file_source file_env ∷ json_source json_env ∷ rest ∷ [])
  unfolding configured_source
  configured-first file_env json_env rest =
      first-of-three (variable getenv file_env) (variable getenv json_env) rest

  first-AllBacked :
      (sources : List (Option Source)) → All AllBacked sources → AllBacked (first_source sources)
  first-AllBacked [] h = tt
  first-AllBacked (none ∷ sources) h = first-AllBacked sources h.1
  first-AllBacked (some source ∷ sources) h = h.0

  file-AllBacked : (o : Option Text) → AllBacked (source_of of_file o)
  file-AllBacked none = tt
  file-AllBacked (some path) = tt

  json-AllBacked : (o : Option Text) → AllBacked (source_of of_json o)
  json-AllBacked none = tt
  json-AllBacked (some json) = tt

  none-last : (a b : Option Source) → first_source (a ∷ b ∷ none ∷ []) ≡ first_source (a ∷ b ∷ [])
  none-last none none = refl
  none-last none (some b) = refl
  none-last (some a) b = refl

  chosen-first :
      (json_env file_env : Text) (prefer : Bool)
      → chosen_source getenv json_env file_env prefer
        ≡ first_source (candidates json_env file_env prefer)
  unfolding chosen_source
  chosen-first json_env file_env false =
      configured-first file_env json_env (workload_identity_source getenv)
  chosen-first json_env file_env true = elim (Option-cases (workload_identity_source getenv)) [
    | inr (source, e) ↦ rw (e, chosen_source) refl
    | inl e ↦
        rw (e, chosen_source)
          (configured-first file_env json_env none
            ∙ none-last (file_source file_env) (json_source json_env))
  ]

  -- Google's credentials are made of the first source that the environment has, the workload
  -- identity before or after the file and the JSON text as is preferred, and a workload identity is
  -- chosen only where its subject token can be got.
  pub chosen_source-first :
      (json_env file_env : Text) (prefer : Bool)
      → (chosen_source getenv json_env file_env prefer
          ≡ first_source (candidates json_env file_env prefer))
        × AllBacked (chosen_source getenv json_env file_env prefer)
  chosen_source-first json_env file_env prefer =
      let order = chosen-first json_env file_env prefer in
      (order, rw order (first-AllBacked (candidates json_env file_env prefer) (backed prefer)))
    where
      backed : (p : Bool) → All AllBacked (candidates json_env file_env p)
      backed true = (
        workload-AllBacked,
        (
          file-AllBacked (variable getenv file_env),
          (json-AllBacked (variable getenv json_env), tt),
        ),
      )
      backed false = (
        file-AllBacked (variable getenv file_env),
        (json-AllBacked (variable getenv json_env), (workload-AllBacked, tt)),
      )
