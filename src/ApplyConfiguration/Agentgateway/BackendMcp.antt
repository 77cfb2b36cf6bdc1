-- ===== src/ApplyConfiguration/Agentgateway/BackendMcp.antt =====
-- mycelium/internal/applyconfiguration/v1alpha1/agentgateway/backendmcp.go
use agentic_platform.Prelude.{List, Option, [], none, refl, some, ◌∷◌}
use agentic_platform.ApplyConfiguration.Json.{Fields, Json, object_of, pointer_field}
use agentic_platform.ApplyConfiguration.Foreign.{Foreign}
use agentic_platform.ApplyConfiguration.Builder.{Builder, Configuration, IsSound, ◌▸◌}
use agentic_platform.ApplyConfiguration.Builder.Kinds.{
  pointer_builder, pointer_IsFaithful, value_builder, value_IsFaithful,
}
use agentic_platform.ApplyConfiguration.Agentgateway.McpAuthentication.{
  McpAuthentication, encode_mcp_authentication,
}

module _ (x : Foreign) where
  pub record BackendMcp : Type 0 where
    pub authorization : Option x.authorization.Carrier
    pub authentication : Option (McpAuthentication x)

  abbrev pub backend_mcp : BackendMcp
  backend_mcp = record { authorization = none; authentication = none }

  abbrev pub with_authorization : x.authorization.Carrier → BackendMcp → BackendMcp
  with_authorization v b = record b { authorization = some v }

  abbrev pub with_authentication : Option (McpAuthentication x) → BackendMcp → BackendMcp
  with_authentication v b = record b { authentication = v }

  abbrev pub backend_mcp_fields : BackendMcp → Fields
  backend_mcp_fields b =
      ("authorization", pointer_field x.authorization.encode b.authorization)
      ∷ ("authentication", pointer_field (encode_mcp_authentication x) b.authentication)
      ∷ []

  abbrev pub encode_backend_mcp : BackendMcp → Json
  encode_backend_mcp b = object_of (backend_mcp_fields b)

  abbrev pub builders : List (Builder backend_mcp_fields)
  builders =
      value_builder backend_mcp_fields "authorization" x.authorization.encode with_authorization
      ∷ pointer_builder backend_mcp_fields "authentication" (encode_mcp_authentication x)
          with_authentication
      ∷ []

  abbrev pub configuration : Configuration
  configuration = record {
    Self = BackendMcp;
    fields = backend_mcp_fields;
    empty = backend_mcp;
    builders = builders;
  }

  pub configuration-IsSound : IsSound configuration
  configuration-IsSound = record {
    unset = refl;
    faithful =
        value_IsFaithful 0 (λ b. refl) (λ a b. refl)
        ▸ pointer_IsFaithful 1 (λ b. refl) (λ a b. refl)
        ▸ tt;
  }
