-- ===== src/ApplyConfiguration/Agentgateway/McpTargetSelector.antt =====
-- mycelium/internal/applyconfiguration/v1alpha1/agentgateway/mcptargetselector.go
use agentic_platform.Prelude.{List, Option, [], none, refl, some, ◌∷◌}
use agentic_platform.ApplyConfiguration.Json.{Fields, Json, object_of, pointer_field}
use agentic_platform.ApplyConfiguration.Foreign.{Foreign}
use agentic_platform.ApplyConfiguration.Builder.{Builder, Configuration, IsSound, ◌▸◌}
use agentic_platform.ApplyConfiguration.Builder.Kinds.{
  pointer_builder, pointer_IsFaithful, value_builder, value_IsFaithful,
}
use agentic_platform.ApplyConfiguration.Agentgateway.McpSelector.{McpSelector, encode_mcp_selector}
use agentic_platform.ApplyConfiguration.Agentgateway.McpTarget.{McpTarget, encode_mcp_target}

module _ (x : Foreign) where
  pub record McpTargetSelector : Type 0 where
    pub name : Option x.section_name.Carrier
    pub selector : Option (McpSelector x)
    pub static : Option (McpTarget x)

  abbrev pub mcp_target_selector : McpTargetSelector
  mcp_target_selector = record { name = none; selector = none; static = none }

  abbrev pub with_name : x.section_name.Carrier → McpTargetSelector → McpTargetSelector
  with_name v b = record b { name = some v }

  abbrev pub with_selector : Option (McpSelector x) → McpTargetSelector → McpTargetSelector
  with_selector v b = record b { selector = v }

  abbrev pub with_static : Option (McpTarget x) → McpTargetSelector → McpTargetSelector
  with_static v b = record b { static = v }

  abbrev pub mcp_target_selector_fields : McpTargetSelector → Fields
  mcp_target_selector_fields b =
      ("name", pointer_field x.section_name.encode b.name)
      ∷ ("selector", pointer_field (encode_mcp_selector x) b.selector)
      ∷ ("static", pointer_field (encode_mcp_target x) b.static)
      ∷ []

  abbrev pub encode_mcp_target_selector : McpTargetSelector → Json
  encode_mcp_target_selector b = object_of (mcp_target_selector_fields b)

  abbrev pub builders : List (Builder mcp_target_selector_fields)
  builders =
      value_builder mcp_target_selector_fields "name" x.section_name.encode with_name
      ∷ pointer_builder mcp_target_selector_fields "selector" (encode_mcp_selector x) with_selector
      ∷ pointer_builder mcp_target_selector_fields "static" (encode_mcp_target x) with_static
      ∷ []

  abbrev pub configuration : Configuration
  configuration = record {
    Self = McpTargetSelector;
    fields = mcp_target_selector_fields;
    empty = mcp_target_selector;
    builders = builders;
  }

  pub configuration-IsSound : IsSound configuration
  configuration-IsSound = record {
    unset = refl;
    faithful =
        value_IsFaithful 0 (λ b. refl) (λ a b. refl)
        ▸ pointer_IsFaithful 1 (λ b. refl) (λ a b. refl)
        ▸ pointer_IsFaithful 2 (λ b. refl) (λ a b. refl)
        ▸ tt;
  }
