-- ===== src/ApplyConfiguration/Agentgateway/McpTarget.antt =====
-- mycelium/internal/applyconfiguration/v1alpha1/agentgateway/mcptarget.go
use agentic_platform.Prelude.{List, Option, String, [], none, refl, some, ◌∷◌}
use agentic_platform.Prelude.Int.{ℤ}
use agentic_platform.ApplyConfiguration.Json.{Fields, Json, number, object_of, pointer_field, text}
use agentic_platform.ApplyConfiguration.Foreign.{Foreign}
use agentic_platform.ApplyConfiguration.Builder.{Builder, Configuration, IsSound, ◌▸◌}
use agentic_platform.ApplyConfiguration.Builder.Kinds.{
  pointer_builder, pointer_IsFaithful, value_builder, value_IsFaithful,
}
use agentic_platform.ApplyConfiguration.Agentgateway.BackendSimple.{
  BackendSimple, encode_backend_simple,
}

module _ (x : Foreign) where
  pub record McpTarget : Type 0 where
    pub host : Option String
    pub backend_ref : Option x.local_object_reference.Carrier
    pub port : Option ℤ
    pub path : Option String
    pub protocol : Option x.mcp_protocol.Carrier
    pub policies : Option (BackendSimple x)

  abbrev pub mcp_target : McpTarget
  mcp_target = record {
    host = none;
    backend_ref = none;
    port = none;
    path = none;
    protocol = none;
    policies = none;
  }

  abbrev pub with_host : String → McpTarget → McpTarget
  with_host v b = record b { host = some v }

  abbrev pub with_backend_ref : x.local_object_reference.Carrier → McpTarget → McpTarget
  with_backend_ref v b = record b { backend_ref = some v }

  abbrev pub with_port : ℤ → McpTarget → McpTarget
  with_port v b = record b { port = some v }

  abbrev pub with_path : String → McpTarget → McpTarget
  with_path v b = record b { path = some v }

  abbrev pub with_protocol : x.mcp_protocol.Carrier → McpTarget → McpTarget
  with_protocol v b = record b { protocol = some v }

  abbrev pub with_policies : Option (BackendSimple x) → McpTarget → McpTarget
  with_policies v b = record b { policies = v }

  abbrev pub mcp_target_fields : McpTarget → Fields
  mcp_target_fields b =
      ("host", pointer_field text b.host)
      ∷ ("backendRef", pointer_field x.local_object_reference.encode b.backend_ref)
      ∷ ("port", pointer_field number b.port)
      ∷ ("path", pointer_field text b.path)
      ∷ ("protocol", pointer_field x.mcp_protocol.encode b.protocol)
      ∷ ("policies", pointer_field (encode_backend_simple x) b.policies)
      ∷ []

  abbrev pub encode_mcp_target : McpTarget → Json
  encode_mcp_target b = object_of (mcp_target_fields b)

  abbrev pub builders : List (Builder mcp_target_fields)
  builders =
      value_builder mcp_target_fields "host" text with_host
      ∷ value_builder mcp_target_fields "backendRef" x.local_object_reference.encode
          with_backend_ref
      ∷ value_builder mcp_target_fields "port" number with_port
      ∷ value_builder mcp_target_fields "path" text with_path
      ∷ value_builder mcp_target_fields "protocol" x.mcp_protocol.encode with_protocol
      ∷ pointer_builder mcp_target_fields "policies" (encode_backend_simple x) with_policies
      ∷ []

  abbrev pub configuration : Configuration
  configuration = record {
    Self = McpTarget;
    fields = mcp_target_fields;
    empty = mcp_target;
    builders = builders;
  }

  pub configuration-IsSound : IsSound configuration
  configuration-IsSound = record {
    unset = refl;
    faithful =
        value_IsFaithful 0 (λ b. refl) (λ a b. refl)
        ▸ value_IsFaithful 1 (λ b. refl) (λ a b. refl)
        ▸ value_IsFaithful 2 (λ b. refl) (λ a b. refl)
        ▸ value_IsFaithful 3 (λ b. refl) (λ a b. refl)
        ▸ value_IsFaithful 4 (λ b. refl) (λ a b. refl)
        ▸ pointer_IsFaithful 5 (λ b. refl) (λ a b. refl)
        ▸ tt;
  }
