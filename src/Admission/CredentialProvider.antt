-- ===== src/Admission/CredentialProvider.antt =====
-- The markers of credentialprovider_types.go. `is_uri` is the API server's test of `Format=uri`.
pub mod Union
use agentic_platform.Prelude.{
  ℕ, String, Bool, true, false, not, ◌&&◌, ◌||◌, List, [], ◌∷◌, length, leb, ◌==◌, str_eq, codes,
  size, sized, all, if◌then◌else◌,
}
use agentic_platform.Memory.{}
use agentic_platform.Kubernetes.{Machinery}
use agentic_platform.Api.CredentialProvider.{
  TokenEndpointAuthMethod, token_endpoint_auth_method_post, token_endpoint_auth_method_basic,
  credential_provider_type_oauth, credential_provider_type_api_key,
  OauthAuthorizationServerMetadata, OauthDiscoveryConfig, OauthCredentialProviderConfig,
  MyceliumCredentialProviderSpec,
}
use agentic_platform.Admission.Format.{has, optional, items}
use agentic_platform.Admission.Tool.{set_when, admits_type}

-- The marker `Enum=client_secret_post;client_secret_basic`.
abbrev pub admits_auth_method : TokenEndpointAuthMethod → Bool
admits_auth_method m =
    str_eq m token_endpoint_auth_method_post || str_eq m token_endpoint_auth_method_basic

abbrev pub starts_with : List ℕ → List ℕ → Bool
starts_with [] ys = true
starts_with (x ∷ xs) [] = false
starts_with (x ∷ xs) (y ∷ ys) = x == y && starts_with xs ys

abbrev pub well_known_suffix : List ℕ
well_known_suffix = codes "/.well-known/openid-configuration"

-- The pattern `.+/\.well-known/openid-configuration`, which is not anchored: somewhere stands a
-- character other than a line break, and the suffix right behind it.
unfoldable pub is_discovery_url : List ℕ → Bool
is_discovery_url [] = false
is_discovery_url (c ∷ cs) =
    (not (c == 10) && starts_with well_known_suffix cs) || is_discovery_url cs

-- `[has(self.discoveryUrl), has(self.authorizationServerMetadata)].filter(x, x==true).size() == 1`
abbrev pub exactly_one : Bool → Bool → Bool
exactly_one a b = if a then not b else b

module _ (is_uri : String → Bool) where
  abbrev pub admits_url : String → Bool
  admits_url s = sized 1 2048 s && is_uri s

  pub admits_server_metadata : OauthAuthorizationServerMetadata → Bool
  admits_server_metadata m =
      admits_url m.issuer
      && admits_url m.authorization_endpoint
      && admits_url m.token_endpoint
      && leb (length (items m.response_types)) 8
      && all (sized 1 64) (items m.response_types)
      && leb (length (items m.token_endpoint_auth_methods)) 2
      && all admits_auth_method (items m.token_endpoint_auth_methods)

  unfoldable pub admits_discovery : OauthDiscoveryConfig → Bool
  admits_discovery d =
      exactly_one (has d.discovery_url) (has d.authorization_server_metadata)
      && optional (λ u. leb (size u) 2048 && is_uri u && is_discovery_url (codes u)) d.discovery_url
      && optional admits_server_metadata d.authorization_server_metadata

  module _ (k : Machinery) where
    unfoldable pub admits_oauth_config : OauthCredentialProviderConfig k → Bool
    admits_oauth_config c = sized 1 256 c.client_id && admits_discovery c.discovery

    unfoldable pub admits_credential_provider_spec : MyceliumCredentialProviderSpec k → Bool
    admits_credential_provider_spec s =
        admits_type s.type
        && set_when s.type credential_provider_type_oauth (has s.oauth)
        && set_when s.type credential_provider_type_api_key (has s.api_key)
        && optional admits_oauth_config s.oauth
