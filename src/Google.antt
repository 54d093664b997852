-- ===== src/Google.antt =====
-- policyengine_observability/google_credentials.py and google_auth.py: which credentials are loaded.
-- The environment is `getenv`; a library of Google makes credentials of the arguments that it is
-- given, or raises, and so do the readers of files and of JSON.
pub mod Chosen
use policyengine_observabili.Base.{
  Text, text, ◌++◌, starts_with, strip, Bool, any, is_empty, is_some, if◌then◌else◌, Option, none,
  some, or_else, List, [], ◌∷◌,
}

abbrev pub oidc_token_env : Text
oidc_token_env = text "OBSERVABILITY_GOOGLE_OIDC_TOKEN"

abbrev pub modal_identity_token_env : Text
modal_identity_token_env = text "MODAL_IDENTITY_TOKEN"

abbrev pub workload_identity_provider_env : Text
workload_identity_provider_env = text "OBSERVABILITY_GOOGLE_WORKLOAD_IDENTITY_PROVIDER"

abbrev pub service_account_email_env : Text
service_account_email_env = text "OBSERVABILITY_GOOGLE_SERVICE_ACCOUNT_EMAIL"

abbrev pub sts_token_url_env : Text
sts_token_url_env = text "OBSERVABILITY_GOOGLE_STS_TOKEN_URL"

abbrev pub default_sts_token_url : Text
default_sts_token_url = text "https://sts.googleapis.com/v1/token"

abbrev pub iam_prefix : Text
iam_prefix = text "//iam.googleapis.com/"

unfoldable pub workload_identity_audience : Text → Text
workload_identity_audience provider =
    let value = strip provider in
    if starts_with iam_prefix value
    then value
    else if starts_with (text "projects/") value
    then iam_prefix ++ value
    else value

-- The arguments of `identity_pool.Credentials`.
pub record PoolArguments : Type 0 where
  pub audience : Text
  pub token_url : Text
  pub env_names : List Text
  pub service_account_impersonation_url : Option Text

-- The arguments of the credentials that fetch an ID token.
pub data IdTokenArguments : Type 0 where
  impersonated : PoolArguments → Text → Text → IdTokenArguments
  fetched : Text → IdTokenArguments

-- How credentials are made.
pub data Source : Type 0 where
  of_pool : PoolArguments → Source
  of_file : Text → Source
  of_json : Text → Source

module _ (getenv : Text → Option Text) where
  -- The value of a variable that is set and not empty.
  unfoldable pub variable : Text → Option Text
  variable name = elim (getenv name) [
    | none ↦ none
    | some value ↦ if is_empty value then none else some value
  ]

  -- `get_subject_token`, `none` where it raises `RefreshError`.
  unfoldable pub get_subject_token : List Text → Option Text
  get_subject_token [] = none
  get_subject_token (name ∷ names) = elim (variable name) [
    | none ↦ get_subject_token names
    | some token ↦ some token
  ]

  -- `any(os.getenv(name) for name in names)`
  abbrev pub has_subject_token : List Text → Bool
  has_subject_token names = any (λ name. is_some (variable name)) names

  abbrev pub impersonation_url : Text → Text
  impersonation_url email =
      text "https://iamcredentials.googleapis.com/v1/projects/-/"
      ++ text "serviceAccounts/"
      ++ email
      ++ text ":generateAccessToken"

  abbrev pub pool_env_names : List Text
  pool_env_names = oidc_token_env ∷ modal_identity_token_env ∷ []

  unfoldable pub pool_arguments : Text → PoolArguments
  pool_arguments provider = record {
    audience = workload_identity_audience provider;
    token_url = or_else (variable sts_token_url_env) default_sts_token_url;
    env_names = pool_env_names;
    service_account_impersonation_url = elim (variable service_account_email_env) [
      | none ↦ none
      | some email ↦ some (impersonation_url email)
    ];
  }

  unfoldable pub workload_identity_source : Option Source
  workload_identity_source =
      if has_subject_token pool_env_names
      then elim (variable workload_identity_provider_env) [
        | none ↦ none
        | some provider ↦ some (of_pool (pool_arguments provider))
      ]
      else none

  -- The source without a preference: the file, then the JSON text, then `rest`.
  unfoldable pub configured_source : Text → Text → Option Source → Option Source
  configured_source file_env json_env rest = elim (variable file_env) [
    | some path ↦ some (of_file path)
    | none ↦ elim (variable json_env) [ some json ↦ some (of_json json) | none ↦ rest ]
  ]

  -- What `load_google_credentials` makes its credentials of, if the libraries do not raise.
  unfoldable pub chosen_source : Text → Text → Bool → Option Source
  chosen_source json_env file_env prefer_workload_identity =
      if prefer_workload_identity
      then elim workload_identity_source [
        | some source ↦ some source
        | none ↦ configured_source file_env json_env none
      ]
      else configured_source file_env json_env workload_identity_source

  -- `make` is `none` where making the credentials raises, which is `None` for the caller.
  unfoldable pub load_google_credentials :
      {C : Type 0} → (Source → Option C) → Text → Text → Bool → Option C
  load_google_credentials make json_env file_env prefer_workload_identity =
      elim (chosen_source json_env file_env prefer_workload_identity) [
        | none ↦ none
        | some source ↦ make source
      ]

  -- `_google_id_token_credentials`: these have the default URL, whatever the environment says.
  unfoldable pub id_token_arguments : Text → IdTokenArguments
  id_token_arguments audience =
      let names = modal_identity_token_env ∷ oidc_token_env ∷ [] in
      let plain = fetched audience in
      if has_subject_token names
      then elim (variable workload_identity_provider_env) [
        | none ↦ plain
        | some provider ↦ elim (variable service_account_email_env) [
          | none ↦ plain
          | some service_account ↦
              impersonated
                (record {
                  audience = workload_identity_audience provider;
                  token_url = default_sts_token_url;
                  env_names = names;
                  service_account_impersonation_url = none;
                })
                service_account audience
        ]
      ]
      else plain
