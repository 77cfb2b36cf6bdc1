-- ===== src/ApplyConfiguration/Agentgateway/AgentgatewayPolicySpec.antt =====
-- mycelium/internal/applyconfiguration/v1alpha1/agentgateway/agentgatewaypolicyspec.go
use agentic_platform.Prelude.{List, Option, [], none, refl, ◌∷◌}
use agentic_platform.ApplyConfiguration.Appends.{append_values}
use agentic_platform.ApplyConfiguration.Json.{Fields, Json, object_of, pointer_field, slice_field}
use agentic_platform.ApplyConfiguration.Foreign.{Foreign}
use agentic_platform.ApplyConfiguration.Builder.{Builder, Configuration, IsSound, ◌▸◌}
use agentic_platform.ApplyConfiguration.Builder.Kinds.{
  pointer_builder, pointer_IsFaithful, values_builder, values_IsFaithful,
}
use agentic_platform.ApplyConfiguration.Agentgateway.BackendFull.{BackendFull, encode_backend_full}
use agentic_platform.ApplyConfiguration.Agentgateway.Frontend.{Frontend, encode_frontend}
use agentic_platform.ApplyConfiguration.Agentgateway.Traffic.{Traffic, encode_traffic}

module _ (x : Foreign) where
  pub record AgentgatewayPolicySpec : Type 0 where
    pub target_refs : List x.local_policy_target_reference_with_section_name.Carrier
    pub target_selectors : List x.local_policy_target_selector_with_section_name.Carrier
    pub frontend : Option (Frontend x)
    pub traffic : Option (Traffic x)
    pub backend : Option (BackendFull x)

  abbrev pub agentgateway_policy_spec : AgentgatewayPolicySpec
  agentgateway_policy_spec = record {
    target_refs = [];
    target_selectors = [];
    frontend = none;
    traffic = none;
    backend = none;
  }

  abbrev pub with_target_refs :
      List x.local_policy_target_reference_with_section_name.Carrier
      → AgentgatewayPolicySpec
      → AgentgatewayPolicySpec
  with_target_refs values b = record b { target_refs = append_values values b.target_refs }

  abbrev pub with_target_selectors :
      List x.local_policy_target_selector_with_section_name.Carrier
      → AgentgatewayPolicySpec
      → AgentgatewayPolicySpec
  with_target_selectors values b = record b {
    target_selectors = append_values values b.target_selectors;
  }

  abbrev pub with_frontend : Option (Frontend x) → AgentgatewayPolicySpec → AgentgatewayPolicySpec
  with_frontend v b = record b { frontend = v }

  abbrev pub with_traffic : Option (Traffic x) → AgentgatewayPolicySpec → AgentgatewayPolicySpec
  with_traffic v b = record b { traffic = v }

  abbrev pub with_backend : Option (BackendFull x) → AgentgatewayPolicySpec → AgentgatewayPolicySpec
  with_backend v b = record b { backend = v }

  abbrev pub agentgateway_policy_spec_fields : AgentgatewayPolicySpec → Fields
  agentgateway_policy_spec_fields b =
      (
        "targetRefs",
        slice_field x.local_policy_target_reference_with_section_name.encode b.target_refs,
      )
      ∷ (
        "targetSelectors",
        slice_field x.local_policy_target_selector_with_section_name.encode b.target_selectors,
      )
      ∷ ("frontend", pointer_field (encode_frontend x) b.frontend)
      ∷ ("traffic", pointer_field (encode_traffic x) b.traffic)
      ∷ ("backend", pointer_field (encode_backend_full x) b.backend)
      ∷ []

  abbrev pub encode_agentgateway_policy_spec : AgentgatewayPolicySpec → Json
  encode_agentgateway_policy_spec b = object_of (agentgateway_policy_spec_fields b)

  abbrev pub builders : List (Builder agentgateway_policy_spec_fields)
  builders =
      values_builder agentgateway_policy_spec_fields "targetRefs"
        x.local_policy_target_reference_with_section_name.encode with_target_refs
      ∷ values_builder agentgateway_policy_spec_fields "targetSelectors"
          x.local_policy_target_selector_with_section_name.encode with_target_selectors
      ∷ pointer_builder agentgateway_policy_spec_fields "frontend" (encode_frontend x) with_frontend
      ∷ pointer_builder agentgateway_policy_spec_fields "traffic" (encode_traffic x) with_traffic
      ∷ pointer_builder agentgateway_policy_spec_fields "backend" (encode_backend_full x)
          with_backend
      ∷ []

  abbrev pub configuration : Configuration
  configuration = record {
    Self = AgentgatewayPolicySpec;
    fields = agentgateway_policy_spec_fields;
    empty = agentgateway_policy_spec;
    builders = builders;
  }

  pub configuration-IsSound : IsSound configuration
  configuration-IsSound = record {
    unset = refl;
    faithful =
        values_IsFaithful 0 (λ b. refl) (λ b. b.target_refs) (λ xs b. record b { target_refs = xs })
          (λ xs b. refl) (λ b. refl) (λ a b. refl)
        ▸ values_IsFaithful 1 (λ b. refl) (λ b. b.target_selectors)
            (λ xs b. record b { target_selectors = xs }) (λ xs b. refl) (λ b. refl) (λ a b. refl)
        ▸ pointer_IsFaithful 2 (λ b. refl) (λ a b. refl)
        ▸ pointer_IsFaithful 3 (λ b. refl) (λ a b. refl)
        ▸ pointer_IsFaithful 4 (λ b. refl) (λ a b. refl)
        ▸ tt;
  }
