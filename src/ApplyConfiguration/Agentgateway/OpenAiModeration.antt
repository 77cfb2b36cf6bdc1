-- ===== src/ApplyConfiguration/Agentgateway/OpenAiModeration.antt =====
-- mycelium/internal/applyconfiguration/v1alpha1/agentgateway/openaimoderation.go
use agentic_platform.Prelude.{List, Option, String, [], none, refl, some, ◌∷◌}
use agentic_platform.ApplyConfiguration.Json.{Fields, Json, object_of, pointer_field, text}
use agentic_platform.ApplyConfiguration.Foreign.{Foreign}
use agentic_platform.ApplyConfiguration.Builder.{Builder, Configuration, IsSound, ◌▸◌}
use agentic_platform.ApplyConfiguration.Builder.Kinds.{
  pointer_builder, pointer_IsFaithful, value_builder, value_IsFaithful,
}
use agentic_platform.ApplyConfiguration.Agentgateway.BackendSimple.{
  BackendSimple, encode_backend_simple,
}

module _ (x : Foreign) where
  pub record OpenAiModeration : Type 0 where
    pub model : Option String
    pub policies : Option (BackendSimple x)

  abbrev pub open_ai_moderation : OpenAiModeration
  open_ai_moderation = record { model = none; policies = none }

  abbrev pub with_model : String → OpenAiModeration → OpenAiModeration
  with_model v b = record b { model = some v }

  abbrev pub with_policies : Option (BackendSimple x) → OpenAiModeration → OpenAiModeration
  with_policies v b = record b { policies = v }

  abbrev pub open_ai_moderation_fields : OpenAiModeration → Fields
  open_ai_moderation_fields b =
      ("model", pointer_field text b.model)
      ∷ ("policies", pointer_field (encode_backend_simple x) b.policies)
      ∷ []

  abbrev pub encode_open_ai_moderation : OpenAiModeration → Json
  encode_open_ai_moderation b = object_of (open_ai_moderation_fields b)

  abbrev pub builders : List (Builder open_ai_moderation_fields)
  builders =
      value_builder open_ai_moderation_fields "model" text with_model
      ∷ pointer_builder open_ai_moderation_fields "policies" (encode_backend_simple x) with_policies
      ∷ []

  abbrev pub configuration : Configuration
  configuration = record {
    Self = OpenAiModeration;
    fields = open_ai_moderation_fields;
    empty = open_ai_moderation;
    builders = builders;
  }

  pub configuration-IsSound : IsSound configuration
  configuration-IsSound = record {
    unset = refl;
    faithful =
        value_IsFaithful 0 (λ b. refl) (λ a b. refl)
        ▸ pointer_IsFaithful 1 (λ b. refl) (λ a b. refl)
        ▸ tt;
  }
