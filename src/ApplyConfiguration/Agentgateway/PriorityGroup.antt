-- ===== src/ApplyConfiguration/Agentgateway/PriorityGroup.antt =====
-- mycelium/internal/applyconfiguration/v1alpha1/agentgateway/prioritygroup.go
use agentic_platform.Prelude.{List, Option, [], refl, ◌∷◌}
use agentic_platform.ApplyConfiguration.{Outcome, map_outcome}
use agentic_platform.ApplyConfiguration.Appends.{append_pointers}
use agentic_platform.ApplyConfiguration.Json.{Fields, Json, object_of, slice_field}
use agentic_platform.ApplyConfiguration.Foreign.{Foreign}
use agentic_platform.ApplyConfiguration.Builder.{Builder, Configuration, IsSound, ◌▸◌}
use agentic_platform.ApplyConfiguration.Builder.Kinds.{pointers_builder, pointers_IsFaithful}
use agentic_platform.ApplyConfiguration.Agentgateway.NamedLlmProvider.{
  NamedLlmProvider, encode_named_llm_provider,
}

module _ (x : Foreign) where
  pub record PriorityGroup : Type 0 where
    pub providers : List (NamedLlmProvider x)

  abbrev pub priority_group : PriorityGroup
  priority_group = record { providers = [] }

  abbrev pub with_providers :
      List (Option (NamedLlmProvider x)) → PriorityGroup → Outcome PriorityGroup
  with_providers values b =
      map_outcome (λ xs. record b { providers = xs })
        (append_pointers "WithProviders" values b.providers)

  abbrev pub priority_group_fields : PriorityGroup → Fields
  priority_group_fields b =
      ("providers", slice_field (encode_named_llm_provider x) b.providers) ∷ []

  abbrev pub encode_priority_group : PriorityGroup → Json
  encode_priority_group b = object_of (priority_group_fields b)

  abbrev pub builders : List (Builder priority_group_fields)
  builders =
      pointers_builder priority_group_fields "providers" (encode_named_llm_provider x)
        "WithProviders" with_providers
      ∷ []

  abbrev pub configuration : Configuration
  configuration = record {
    Self = PriorityGroup;
    fields = priority_group_fields;
    empty = priority_group;
    builders = builders;
  }

  pub configuration-IsSound : IsSound configuration
  configuration-IsSound = record {
    unset = refl;
    faithful =
        pointers_IsFaithful 0 (λ b. refl) (λ b. b.providers) (λ xs b. record b { providers = xs })
          (λ xs b. refl) (λ b. refl) "WithProviders" (λ a b. refl)
        ▸ tt;
  }
