-- ===== src/ApplyConfiguration/Agentgateway/McpBackend.antt =====
-- mycelium/internal/applyconfiguration/v1alpha1/agentgateway/mcpbackend.go
use agentic_platform.Prelude.{List, Option, [], none, refl, some, ◌∷◌}
use agentic_platform.ApplyConfiguration.{Outcome, map_outcome}
use agentic_platform.ApplyConfiguration.Appends.{append_pointers}
use agentic_platform.ApplyConfiguration.Json.{Fields, Json, object_of, pointer_field, slice_field}
use agentic_platform.ApplyConfiguration.Foreign.{Foreign}
use agentic_platform.ApplyConfiguration.Builder.{Builder, Configuration, IsSound, ◌▸◌}
use agentic_platform.ApplyConfiguration.Builder.Kinds.{
  pointers_builder, pointers_IsFaithful, value_builder, value_IsFaithful,
}
use agentic_platform.ApplyConfiguration.Agentgateway.McpTargetSelector.{
  McpTargetSelector, encode_mcp_target_selector,
}

module _ (x : Foreign) where
  pub record McpBackend : Type 0 where
    pub targets : List (McpTargetSelector x)
    pub session_routing : Option x.session_routing.Carrier
    pub failure_mode : Option x.failure_mode.Carrier

  abbrev pub mcp_backend : McpBackend
  mcp_backend = record { targets = []; session_routing = none; failure_mode = none }

  abbrev pub with_targets : List (Option (McpTargetSelector x)) → McpBackend → Outcome McpBackend
  with_targets values b =
      map_outcome (λ xs. record b { targets = xs }) (append_pointers "WithTargets" values b.targets)

  abbrev pub with_session_routing : x.session_routing.Carrier → McpBackend → McpBackend
  with_session_routing v b = record b { session_routing = some v }

  abbrev pub with_failure_mode : x.failure_mode.Carrier → McpBackend → McpBackend
  with_failure_mode v b = record b { failure_mode = some v }

  abbrev pub mcp_backend_fields : McpBackend → Fields
  mcp_backend_fields b =
      ("targets", slice_field (encode_mcp_target_selector x) b.targets)
      ∷ ("sessionRouting", pointer_field x.session_routing.encode b.session_routing)
      ∷ ("failureMode", pointer_field x.failure_mode.encode b.failure_mode)
      ∷ []

  abbrev pub encode_mcp_backend : McpBackend → Json
  encode_mcp_backend b = object_of (mcp_backend_fields b)

  abbrev pub builders : List (Builder mcp_backend_fields)
  builders =
      pointers_builder mcp_backend_fields "targets" (encode_mcp_target_selector x) "WithTargets"
        with_targets
      ∷ value_builder mcp_backend_fields "sessionRouting" x.session_routing.encode
          with_session_routing
      ∷ value_builder mcp_backend_fields "failureMode" x.failure_mode.encode with_failure_mode
      ∷ []

  abbrev pub configuration : Configuration
  configuration = record {
    Self = McpBackend;
    fields = mcp_backend_fields;
    empty = mcp_backend;
    builders = builders;
  }

  pub configuration-IsSound : IsSound configuration
  configuration-IsSound = record {
    unset = refl;
    faithful =
        pointers_IsFaithful 0 (λ b. refl) (λ b. b.targets) (λ xs b. record b { targets = xs })
          (λ xs b. refl) (λ b. refl) "WithTargets" (λ a b. refl)
        ▸ value_IsFaithful 1 (λ b. refl) (λ a b. refl)
        ▸ value_IsFaithful 2 (λ b. refl) (λ a b. refl)
        ▸ tt;
  }
