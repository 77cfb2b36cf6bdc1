-- ===== src/ApplyConfiguration/Agentgateway/AiBackend.antt =====
-- mycelium/internal/applyconfiguration/v1alpha1/agentgateway/aibackend.go
use agentic_platform.Prelude.{List, Option, [], none, refl, ◌∷◌}
use agentic_platform.ApplyConfiguration.{Outcome, map_outcome}
use agentic_platform.ApplyConfiguration.Appends.{append_pointers}
use agentic_platform.ApplyConfiguration.Json.{Fields, Json, object_of, pointer_field, slice_field}
use agentic_platform.ApplyConfiguration.Foreign.{Foreign}
use agentic_platform.ApplyConfiguration.Builder.{Builder, Configuration, IsSound, ◌▸◌}
use agentic_platform.ApplyConfiguration.Builder.Kinds.{
  pointer_builder, pointer_IsFaithful, pointers_builder, pointers_IsFaithful,
}
use agentic_platform.ApplyConfiguration.Agentgateway.LlmProvider.{LlmProvider, encode_llm_provider}
use agentic_platform.ApplyConfiguration.Agentgateway.PriorityGroup.{
  PriorityGroup, encode_priority_group,
}

module _ (x : Foreign) where
  pub record AiBackend : Type 0 where
    pub llm : Option (LlmProvider x)
    pub priority_groups : List (PriorityGroup x)

  abbrev pub ai_backend : AiBackend
  ai_backend = record { llm = none; priority_groups = [] }

  abbrev pub with_llm : Option (LlmProvider x) → AiBackend → AiBackend
  with_llm v b = record b { llm = v }

  abbrev pub with_priority_groups : List (Option (PriorityGroup x)) → AiBackend → Outcome AiBackend
  with_priority_groups values b =
      map_outcome (λ xs. record b { priority_groups = xs })
        (append_pointers "WithPriorityGroups" values b.priority_groups)

  abbrev pub ai_backend_fields : AiBackend → Fields
  ai_backend_fields b =
      ("provider", pointer_field (encode_llm_provider x) b.llm)
      ∷ ("groups", slice_field (encode_priority_group x) b.priority_groups)
      ∷ []

  abbrev pub encode_ai_backend : AiBackend → Json
  encode_ai_backend b = object_of (ai_backend_fields b)

  abbrev pub builders : List (Builder ai_backend_fields)
  builders =
      pointer_builder ai_backend_fields "provider" (encode_llm_provider x) with_llm
      ∷ pointers_builder ai_backend_fields "groups" (encode_priority_group x) "WithPriorityGroups"
          with_priority_groups
      ∷ []

  abbrev pub configuration : Configuration
  configuration = record {
    Self = AiBackend;
    fields = ai_backend_fields;
    empty = ai_backend;
    builders = builders;
  }

  pub configuration-IsSound : IsSound configuration
  configuration-IsSound = record {
    unset = refl;
    faithful =
        pointer_IsFaithful 0 (λ b. refl) (λ a b. refl)
        ▸ pointers_IsFaithful 1 (λ b. refl) (λ b. b.priority_groups)
            (λ xs b. record b { priority_groups = xs }) (λ xs b. refl) (λ b. refl)
            "WithPriorityGroups" (λ a b. refl)
        ▸ tt;
  }
