-- ===== src/ApplyConfiguration/Agentgateway/JwtMcpConfig.antt =====
-- mycelium/internal/applyconfiguration/v1alpha1/agentgateway/jwtmcpconfig.go
use agentic_platform.Prelude.{List, Option, String, [], none, refl, some, ◌∷◌}
use agentic_platform.ApplyConfiguration.{Outcome, map_outcome}
use agentic_platform.ApplyConfiguration.Maps.{GoMap, put_entries}
use agentic_platform.ApplyConfiguration.Json.{Fields, Json, map_field, object_of, pointer_field}
use agentic_platform.ApplyConfiguration.Foreign.{Foreign}
use agentic_platform.ApplyConfiguration.Builder.{Builder, Configuration, IsSound, ◌▸◌}
use agentic_platform.ApplyConfiguration.Builder.Kinds.{
  entries_builder, entries_IsFaithful, value_builder, value_IsFaithful,
}

module _ (x : Foreign) where
  pub record JwtMcpConfig : Type 0 where
    pub resource_metadata : GoMap x.json.Carrier
    pub provider : Option x.mcp_idp.Carrier

  abbrev pub jwt_mcp_config : JwtMcpConfig
  jwt_mcp_config = record { resource_metadata = none; provider = none }

  abbrev pub with_resource_metadata :
      List (String × x.json.Carrier) → JwtMcpConfig → Outcome JwtMcpConfig
  with_resource_metadata entries b =
      map_outcome (λ m. record b { resource_metadata = m })
        (put_entries entries b.resource_metadata)

  abbrev pub with_provider : x.mcp_idp.Carrier → JwtMcpConfig → JwtMcpConfig
  with_provider v b = record b { provider = some v }

  abbrev pub jwt_mcp_config_fields : JwtMcpConfig → Fields
  jwt_mcp_config_fields b =
      ("resourceMetadata", map_field x.json.encode b.resource_metadata)
      ∷ ("provider", pointer_field x.mcp_idp.encode b.provider)
      ∷ []

  abbrev pub encode_jwt_mcp_config : JwtMcpConfig → Json
  encode_jwt_mcp_config b = object_of (jwt_mcp_config_fields b)

  abbrev pub builders : List (Builder jwt_mcp_config_fields)
  builders =
      entries_builder jwt_mcp_config_fields "resourceMetadata" x.json.encode with_resource_metadata
      ∷ value_builder jwt_mcp_config_fields "provider" x.mcp_idp.encode with_provider
      ∷ []

  abbrev pub configuration : Configuration
  configuration = record {
    Self = JwtMcpConfig;
    fields = jwt_mcp_config_fields;
    empty = jwt_mcp_config;
    builders = builders;
  }

  pub configuration-IsSound : IsSound configuration
  configuration-IsSound = record {
    unset = refl;
    faithful =
        entries_IsFaithful 0 (λ b. refl) (λ b. b.resource_metadata)
          (λ m b. record b { resource_metadata = m }) (λ m b. refl) (λ b. refl) (λ a b. refl)
        ▸ value_IsFaithful 1 (λ b. refl) (λ a b. refl)
        ▸ tt;
  }
