-- ===== src/Tests/Admitting.antt =====
-- Admission of concrete resources.
use agentic_platform.Prelude.{
  str_eq, ◌≤◌, ◌≡◌, refl, String, Bool, true, false, Option, none, some, List, [], ◌∷◌, map, codes,
  size, length,
}
use agentic_platform.Memory.{Ref}
use agentic_platform.Api.Tool.{CredentialProviderBinding, credential_provider_name}
use agentic_platform.Api.CredentialProvider.{OauthDiscoveryConfig, MyceliumCredentialProviderSpec}
use agentic_platform.Api.Authorizer.{JwtAuthorizerConfig, MyceliumAuthorizerSpec}
use agentic_platform.Admission.Format.{count, Distinct, items}
use agentic_platform.Admission.Tool.{
  admits_ref, admits_oauth_binding, admits_api_key_binding, admits_binding, admits_bindings,
}
use agentic_platform.Admission.Tool.Names.{
  admits_binding-credential_provider_name, admits_bindings-Distinct, admits_bindings-one_oauth,
}
use agentic_platform.Admission.CredentialProvider.{
  admits_discovery, admits_oauth_config, admits_credential_provider_spec, is_discovery_url,
}
use agentic_platform.Admission.CredentialProvider.Union.{
  Provides, admits_credential_provider_spec-Provides,
}
use agentic_platform.Admission.Authorizer.{
  admits_jwt, admits_authorizer_spec, admits_authorizer_spec-jwt,
}
use agentic_platform.Admission.Agent.{is_timeout}
use agentic_platform.Tests.Samples.{machinery}

abbrev at : {A : Type 0} → A → Option (Ref A)
at c = some (record { addr = 1; content = c })

abbrev any_uri : String → Bool
any_uri s = true

abbrev github : CredentialProviderBinding
github = record {
  type = "OAuth";
  oauth =
      at (record {
        credential_provider_ref = record { name = "github" };
        scopes = at ("repo" ∷ []);
      });
  api_key = none;
}

abbrev maps : CredentialProviderBinding
maps = record {
  type = "APIKey";
  oauth = none;
  api_key = at (record { credential_provider_ref = record { name = "maps" } });
}

admits_binding-credential_provider_name_example :
    (name : String) × (credential_provider_name github ≡ some name) × (1 ≤ size name)
unfolding admits_binding admits_oauth_binding admits_ref
admits_binding-credential_provider_name_example =
    admits_binding-credential_provider_name github refl

admits_bindings-Distinct_example :
    (names : List String) × (map credential_provider_name (github ∷ maps ∷ []) ≡ map some names)
    × Distinct names
unfolding admits_bindings admits_binding admits_oauth_binding admits_api_key_binding admits_ref
admits_bindings-Distinct_example = admits_bindings-Distinct (github ∷ maps ∷ []) refl

admits_bindings-one_oauth_example : count (λ b. str_eq b.type "OAuth") (github ∷ maps ∷ []) ≤ 1
unfolding admits_bindings admits_binding admits_oauth_binding admits_api_key_binding admits_ref
admits_bindings-one_oauth_example = admits_bindings-one_oauth (github ∷ maps ∷ []) refl

-- A provider that is bound twice is refused.
bound_twice : admits_bindings (maps ∷ maps ∷ []) ≡ false
unfolding admits_bindings admits_binding admits_oauth_binding admits_api_key_binding admits_ref
bound_twice = refl

-- `CredentialProviderName` panics on a binding that was not admitted.
name_panics : credential_provider_name (record github { oauth = none }) ≡ none
unfolding credential_provider_name
name_panics = refl

abbrev discovery : OauthDiscoveryConfig
discovery = record {
  discovery_url = at "https://issuer/.well-known/openid-configuration";
  authorization_server_metadata = none;
}

abbrev provider : MyceliumCredentialProviderSpec machinery
provider = record {
  type = "OAuth";
  oauth = at (record { client_id = "c"; client_secret_ref = "s"; discovery = discovery });
  api_key = none;
}

admits_credential_provider_spec-Provides_example : Provides machinery provider
unfolding admits_credential_provider_spec admits_oauth_config admits_discovery is_discovery_url
admits_credential_provider_spec-Provides_example =
    admits_credential_provider_spec-Provides any_uri machinery provider refl

abbrev jwt : JwtAuthorizerConfig
jwt = record {
  issuer = "https://issuer";
  audiences = at ("agents" ∷ []);
  allowed_clients = none;
  allowed_scopes = none;
  jwks_endpoint = "https://issuer/certs";
}

abbrev authorizer : MyceliumAuthorizerSpec
authorizer = record { type = "JWT"; jwt = at jwt }

admits_authorizer_spec-jwt_example :
    (r : Ref JwtAuthorizerConfig) × (authorizer.jwt ≡ some r)
    × (any_uri r.content.issuer ≡ true)
    × (any_uri r.content.jwks_endpoint ≡ true)
    × (1 ≤ length (items r.content.audiences))
unfolding admits_authorizer_spec admits_jwt
admits_authorizer_spec-jwt_example = admits_authorizer_spec-jwt any_uri authorizer refl

no_digits : is_timeout (codes "m") ≡ false
unfolding is_timeout
no_digits = refl

-- A Go duration of two units is refused.
two_units : is_timeout (codes "1h30m") ≡ false
unfolding is_timeout
two_units = refl
