-- ===== src/ApplyConfiguration/Agentgateway/McpSelector.antt =====
-- mycelium/internal/applyconfiguration/v1alpha1/agentgateway/mcpselector.go
use agentic_platform.Prelude.{List, Option, [], none, refl, ◌∷◌}
use agentic_platform.ApplyConfiguration.Json.{Fields, Json, object_of, pointer_field}
use agentic_platform.ApplyConfiguration.Foreign.{Foreign}
use agentic_platform.ApplyConfiguration.Builder.{Builder, Configuration, IsSound, ◌▸◌}
use agentic_platform.ApplyConfiguration.Builder.Kinds.{pointer_builder, pointer_IsFaithful}

module _ (x : Foreign) where
  pub record McpSelector : Type 0 where
    pub namespace : Option x.label_selector.Carrier
    pub service : Option x.label_selector.Carrier

  abbrev pub mcp_selector : McpSelector
  mcp_selector = record { namespace = none; service = none }

  abbrev pub with_namespace : Option x.label_selector.Carrier → McpSelector → McpSelector
  with_namespace v b = record b { namespace = v }

  abbrev pub with_service : Option x.label_selector.Carrier → McpSelector → McpSelector
  with_service v b = record b { service = v }

  abbrev pub mcp_selector_fields : McpSelector → Fields
  mcp_selector_fields b =
      ("namespaces", pointer_field x.label_selector.encode b.namespace)
      ∷ ("services", pointer_field x.label_selector.encode b.service)
      ∷ []

  abbrev pub encode_mcp_selector : McpSelector → Json
  encode_mcp_selector b = object_of (mcp_selector_fields b)

  abbrev pub builders : List (Builder mcp_selector_fields)
  builders =
      pointer_builder mcp_selector_fields "namespaces" x.label_selector.encode with_namespace
      ∷ pointer_builder mcp_selector_fields "services" x.label_selector.encode with_service
      ∷ []

  abbrev pub configuration : Configuration
  configuration = record {
    Self = McpSelector;
    fields = mcp_selector_fields;
    empty = mcp_selector;
    builders = builders;
  }

  pub configuration-IsSound : IsSound configuration
  configuration-IsSound = record {
    unset = refl;
    faithful =
        pointer_IsFaithful 0 (λ b. refl) (λ a b. refl)
        ▸ pointer_IsFaithful 1 (λ b. refl) (λ a b. refl)
        ▸ tt;
  }
