-- ===== src/ApplyConfiguration/Agentgateway/GeminiConfig.antt =====
-- mycelium/internal/applyconfiguration/v1alpha1/agentgateway/geminiconfig.go
use agentic_platform.Prelude.{List, Option, String, [], none, refl, some, ◌∷◌}
use agentic_platform.ApplyConfiguration.Json.{Fields, Json, object_of, pointer_field, text}
use agentic_platform.ApplyConfiguration.Foreign.{Foreign}
use agentic_platform.ApplyConfiguration.Builder.{Builder, Configuration, IsSound, ◌▸◌}
use agentic_platform.ApplyConfiguration.Builder.Kinds.{value_builder, value_IsFaithful}

module _ (x : Foreign) where
  pub record GeminiConfig : Type 0 where
    pub model : Option String

  abbrev pub gemini_config : GeminiConfig
  gemini_config = record { model = none }

  abbrev pub with_model : String → GeminiConfig → GeminiConfig
  with_model v b = record b { model = some v }

  abbrev pub gemini_config_fields : GeminiConfig → Fields
  gemini_config_fields b = ("model", pointer_field text b.model) ∷ []

  abbrev pub encode_gemini_config : GeminiConfig → Json
  encode_gemini_config b = object_of (gemini_config_fields b)

  abbrev pub builders : List (Builder gemini_config_fields)
  builders = value_builder gemini_config_fields "model" text with_model ∷ []

  abbrev pub configuration : Configuration
  configuration = record {
    Self = GeminiConfig;
    fields = gemini_config_fields;
    empty = gemini_config;
    builders = builders;
  }

  pub configuration-IsSound : IsSound configuration
  configuration-IsSound = record {
    unset = refl;
    faithful = value_IsFaithful 0 (λ b. refl) (λ a b. refl) ▸ tt;
  }
