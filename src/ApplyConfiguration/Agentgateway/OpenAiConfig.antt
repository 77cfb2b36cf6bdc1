-- ===== src/ApplyConfiguration/Agentgateway/OpenAiConfig.antt =====
-- mycelium/internal/applyconfiguration/v1alpha1/agentgateway/openaiconfig.go
use agentic_platform.Prelude.{List, Option, String, [], none, refl, some, ◌∷◌}
use agentic_platform.ApplyConfiguration.Json.{Fields, Json, object_of, pointer_field, text}
use agentic_platform.ApplyConfiguration.Foreign.{Foreign}
use agentic_platform.ApplyConfiguration.Builder.{Builder, Configuration, IsSound, ◌▸◌}
use agentic_platform.ApplyConfiguration.Builder.Kinds.{value_builder, value_IsFaithful}

module _ (x : Foreign) where
  pub record OpenAiConfig : Type 0 where
    pub model : Option String

  abbrev pub open_ai_config : OpenAiConfig
  open_ai_config = record { model = none }

  abbrev pub with_model : String → OpenAiConfig → OpenAiConfig
  with_model v b = record b { model = some v }

  abbrev pub open_ai_config_fields : OpenAiConfig → Fields
  open_ai_config_fields b = ("model", pointer_field text b.model) ∷ []

  abbrev pub encode_open_ai_config : OpenAiConfig → Json
  encode_open_ai_config b = object_of (open_ai_config_fields b)

  abbrev pub builders : List (Builder open_ai_config_fields)
  builders = value_builder open_ai_config_fields "model" text with_model ∷ []

  abbrev pub configuration : Configuration
  configuration = record {
    Self = OpenAiConfig;
    fields = open_ai_config_fields;
    empty = open_ai_config;
    builders = builders;
  }

  pub configuration-IsSound : IsSound configuration
  configuration-IsSound = record {
    unset = refl;
    faithful = value_IsFaithful 0 (λ b. refl) (λ a b. refl) ▸ tt;
  }
