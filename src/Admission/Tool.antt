-- ===== src/Admission/Tool.antt =====
-- The markers of tool_types.go.
pub mod Names
use agentic_platform.Prelude.{
  ℕ, String, Bool, true, false, not, ◌&&◌, ◌||◌, Option, none, some, List, [], ◌∷◌, length, leb,
  ◌==◌, str_eq, size, sized, all, if◌then◌else◌,
}
use agentic_platform.Prelude.Int.{ℤ, pos, leb_ℤ}
use agentic_platform.Memory.{Pointer}
use agentic_platform.Kubernetes.{Machinery}
use agentic_platform.Api.CredentialProvider.{
  CredentialProviderType, credential_provider_type_oauth, credential_provider_type_api_key,
}
use agentic_platform.Api.Tool.{
  CredentialProviderRef, OauthCredentialProviderBinding, ApiKeyCredentialProviderBinding,
  CredentialProviderBinding, WorkerPoolConfig, MyceliumToolSpec,
}
use agentic_platform.Admission.Format.{has, optional, items, distinct, count}

unfoldable pub admits_ref : CredentialProviderRef → Bool
admits_ref r = leb 1 (size r.name)

unfoldable pub admits_oauth_binding : OauthCredentialProviderBinding → Bool
admits_oauth_binding b =
    admits_ref b.credential_provider_ref
    && leb 1 (length (items b.scopes))
    && leb (length (items b.scopes)) 32
    && all (sized 1 256) (items b.scopes)

unfoldable pub admits_api_key_binding : ApiKeyCredentialProviderBinding → Bool
admits_api_key_binding b = admits_ref b.credential_provider_ref

-- `self.type == 'OAuth' ? has(self.oauth) : !has(self.oauth)`
abbrev pub set_when : CredentialProviderType → CredentialProviderType → Bool → Bool
set_when type wanted present = if str_eq type wanted then present else not present

-- The marker `Enum=OAuth;APIKey` of `CredentialProviderType`.
abbrev pub admits_type : CredentialProviderType → Bool
admits_type t = str_eq t credential_provider_type_oauth || str_eq t credential_provider_type_api_key

unfoldable pub admits_binding : CredentialProviderBinding → Bool
admits_binding b =
    admits_type b.type
    && set_when b.type credential_provider_type_oauth (has b.oauth)
    && set_when b.type credential_provider_type_api_key (has b.api_key)
    && optional admits_oauth_binding b.oauth
    && optional admits_api_key_binding b.api_key

-- `!has(self.minReplicas) || !has(self.maxReplicas) || self.minReplicas <= self.maxReplicas`
abbrev pub min_le_max : Pointer ℤ → Pointer ℤ → Bool
min_le_max (some a) (some b) = leb_ℤ a.content b.content
min_le_max _ _ = true

abbrev pub within : ℤ → ℤ → ℤ → Bool
within lo hi v = leb_ℤ lo v && leb_ℤ v hi

unfoldable pub admits_worker_pool : WorkerPoolConfig → Bool
admits_worker_pool w =
    sized 1 1024 w.image
    && optional (within (pos 0) (pos 100)) w.min_replicas
    && optional (within (pos 1) (pos 100)) w.max_replicas
    && min_le_max w.min_replicas w.max_replicas

-- `b.type == 'OAuth' ? b.oauth.credentialProviderRef.name : b.apiKey.credentialProviderRef.name`;
-- `none` where CEL fails to evaluate, at a field that is not set.
abbrev pub rule_name : CredentialProviderBinding → Option String
rule_name b =
    if str_eq b.type credential_provider_type_oauth
    then elim b.oauth [ none ↦ none | some r ↦ some r.content.name ]
    else elim b.api_key [ none ↦ none | some r ↦ some r.content.name ]

-- `self.map(b, …)`, which fails where one item does.
abbrev pub map_cons : Option String → Option (List String) → Option (List String)
map_cons (some x) (some xs) = some (x ∷ xs)
map_cons _ _ = none

abbrev pub rule_names : List CredentialProviderBinding → Option (List String)
rule_names [] = some []
rule_names (b ∷ bs) = map_cons (rule_name b) (rule_names bs)

-- `….distinct().size() == self.size()`; a rule that fails to evaluate rejects.
abbrev pub names_distinct : Option (List String) → ℕ → Bool
names_distinct none n = false
names_distinct (some xs) n = length (distinct xs) == n

unfoldable pub admits_bindings : List CredentialProviderBinding → Bool
admits_bindings bs =
    leb (length bs) 9
    && all admits_binding bs
    && leb (count (λ b. has b.oauth) bs) 1
    && names_distinct (rule_names bs) (length bs)

module _ (k : Machinery) where
  pub admits_tool_spec : MyceliumToolSpec k → Bool
  admits_tool_spec s =
      sized 1 1024 s.description
      && admits_bindings (items s.credential_provider_bindings)
      && admits_worker_pool s.worker_pool
