-- ===== src/Admission/CredentialProvider/Union.antt =====
-- The union of credentialprovider_types.go: the configuration that goes with a provider's type.
use agentic_platform.Prelude.{
  String, Bool, true, false, ◌≡◌, none, some, refl, str_eq, str_eq_iff, Option-cases, inl, inr,
  arith,
}
use agentic_platform.Memory.{Ref}
use agentic_platform.Kubernetes.{Machinery}
use agentic_platform.Api.CredentialProvider.{
  credential_provider_type_oauth, credential_provider_type_api_key, OauthCredentialProviderConfig,
  ApiKeyCredentialProviderConfig, MyceliumCredentialProviderSpec,
}
use agentic_platform.Admission.CredentialProvider.{admits_credential_provider_spec}

-- What is set in a credential provider of either type.
pub data Provides (k : Machinery) (s : MyceliumCredentialProviderSpec k) : Type 0 where
  by_oauth :
      (r : Ref (OauthCredentialProviderConfig k))
      → s.type ≡ credential_provider_type_oauth
      → s.oauth ≡ some r
      → s.api_key ≡ none
      → Provides k s
  by_api_key :
      (r : Ref (ApiKeyCredentialProviderConfig k))
      → s.type ≡ credential_provider_type_api_key
      → s.oauth ≡ none
      → s.api_key ≡ some r
      → Provides k s

module _ (is_uri : String → Bool) where
  -- An admitted credential provider has the type OAuth and only an OAuth configuration, or the type
  -- APIKey and only an API key configuration.
  pub admits_credential_provider_spec-Provides :
      (k : Machinery) (s : MyceliumCredentialProviderSpec k)
      → admits_credential_provider_spec is_uri k s ≡ true
      → Provides k s
  unfolding admits_credential_provider_spec
  admits_credential_provider_spec-Provides k s h =
      let oauth_iff = str_eq_iff s.type credential_provider_type_oauth in
      let api_key_iff = str_eq_iff s.type credential_provider_type_api_key in
      elim (Option-cases s.oauth) [
        | inl no_oauth ↦ elim (Option-cases s.api_key) [
          | inl no_api_key ↦ absurd (ground (arith, oauth_iff, api_key_iff))
          | inr (r, e) ↦ by_api_key r (ground (arith, oauth_iff, api_key_iff)) no_oauth e
        ]
        | inr (r, e) ↦
            let t : s.type ≡ credential_provider_type_oauth = ground (arith, oauth_iff) in
            let other : str_eq s.type credential_provider_type_api_key ≡ false = rw t refl in
            by_oauth r t e (elim (Option-cases s.api_key) [
              | inl unset ↦ unset
              | inr (q, set) ↦ absurd (ground (arith, other))
            ])
      ]
