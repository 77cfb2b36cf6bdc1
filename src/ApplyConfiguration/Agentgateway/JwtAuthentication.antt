-- ===== src/ApplyConfiguration/Agentgateway/JwtAuthentication.antt =====
-- mycelium/internal/applyconfiguration/v1alpha1/agentgateway/jwtauthentication.go
use agentic_platform.Prelude.{List, Option, [], none, refl, some, ◌∷◌}
use agentic_platform.ApplyConfiguration.{Outcome, map_outcome}
use agentic_platform.ApplyConfiguration.Appends.{append_pointers}
use agentic_platform.ApplyConfiguration.Json.{Fields, Json, object_of, pointer_field, slice_field}
use agentic_platform.ApplyConfiguration.Foreign.{Foreign}
use agentic_platform.ApplyConfiguration.Builder.{Builder, Configuration, IsSound, ◌▸◌}
use agentic_platform.ApplyConfiguration.Builder.Kinds.{
  pointer_builder, pointer_IsFaithful, pointers_builder, pointers_IsFaithful, value_builder,
  value_IsFaithful,
}
use agentic_platform.ApplyConfiguration.Agentgateway.JwtMcpConfig.{
  JwtMcpConfig, encode_jwt_mcp_config,
}
use agentic_platform.ApplyConfiguration.Agentgateway.JwtProvider.{JwtProvider, encode_jwt_provider}

module _ (x : Foreign) where
  pub record JwtAuthentication : Type 0 where
    pub mode : Option x.jwt_authentication_mode.Carrier
    pub providers : List (JwtProvider x)
    pub mcp : Option (JwtMcpConfig x)

  abbrev pub jwt_authentication : JwtAuthentication
  jwt_authentication = record { mode = none; providers = []; mcp = none }

  abbrev pub with_mode : x.jwt_authentication_mode.Carrier → JwtAuthentication → JwtAuthentication
  with_mode v b = record b { mode = some v }

  abbrev pub with_providers :
      List (Option (JwtProvider x)) → JwtAuthentication → Outcome JwtAuthentication
  with_providers values b =
      map_outcome (λ xs. record b { providers = xs })
        (append_pointers "WithProviders" values b.providers)

  abbrev pub with_mcp : Option (JwtMcpConfig x) → JwtAuthentication → JwtAuthentication
  with_mcp v b = record b { mcp = v }

  abbrev pub jwt_authentication_fields : JwtAuthentication → Fields
  jwt_authentication_fields b =
      ("mode", pointer_field x.jwt_authentication_mode.encode b.mode)
      ∷ ("providers", slice_field (encode_jwt_provider x) b.providers)
      ∷ ("mcp", pointer_field (encode_jwt_mcp_config x) b.mcp)
      ∷ []

  abbrev pub encode_jwt_authentication : JwtAuthentication → Json
  encode_jwt_authentication b = object_of (jwt_authentication_fields b)

  abbrev pub builders : List (Builder jwt_authentication_fields)
  builders =
      value_builder jwt_authentication_fields "mode" x.jwt_authentication_mode.encode with_mode
      ∷ pointers_builder jwt_authentication_fields "providers" (encode_jwt_provider x)
          "WithProviders" with_providers
      ∷ pointer_builder jwt_authentication_fields "mcp" (encode_jwt_mcp_config x) with_mcp
      ∷ []

  abbrev pub configuration : Configuration
  configuration = record {
    Self = JwtAuthentication;
    fields = jwt_authentication_fields;
    empty = jwt_authentication;
    builders = builders;
  }

  pub configuration-IsSound : IsSound configuration
  configuration-IsSound = record {
    unset = refl;
    faithful =
        value_IsFaithful 0 (λ b. refl) (λ a b. refl)
        ▸ pointers_IsFaithful 1 (λ b. refl) (λ b. b.providers) (λ xs b. record b { providers = xs })
            (λ xs b. refl) (λ b. refl) "WithProviders" (λ a b. refl)
        ▸ pointer_IsFaithful 2 (λ b. refl) (λ a b. refl)
        ▸ tt;
  }
