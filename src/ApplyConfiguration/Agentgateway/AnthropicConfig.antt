-- ===== src/ApplyConfiguration/Agentgateway/AnthropicConfig.antt =====
-- mycelium/internal/applyconfiguration/v1alpha1/agentgateway/anthropicconfig.go
use agentic_platform.Prelude.{List, Option, String, [], none, refl, some, ◌∷◌}
use agentic_platform.ApplyConfiguration.Json.{Fields, Json, object_of, pointer_field, text}
use agentic_platform.ApplyConfiguration.Foreign.{Foreign}
use agentic_platform.ApplyConfiguration.Builder.{Builder, Configuration, IsSound, ◌▸◌}
use agentic_platform.ApplyConfiguration.Builder.Kinds.{value_builder, value_IsFaithful}

module _ (x : Foreign) where
  pub record AnthropicConfig : Type 0 where
    pub model : Option String

  abbrev pub anthropic_config : AnthropicConfig
  anthropic_config = record { model = none }

  abbrev pub with_model : String → AnthropicConfig → AnthropicConfig
  with_model v b = record b { model = some v }

  abbrev pub anthropic_config_fields : AnthropicConfig → Fields
  anthropic_config_fields b = ("model", pointer_field text b.model) ∷ []

  abbrev pub encode_anthropic_config : AnthropicConfig → Json
  encode_anthropic_config b = object_of (anthropic_config_fields b)

  abbrev pub builders : List (Builder anthropic_config_fields)
  builders = value_builder anthropic_config_fields "model" text with_model ∷ []

  abbrev pub configuration : Configuration
  configuration = record {
    Self = AnthropicConfig;
    fields = anthropic_config_fields;
    empty = anthropic_config;
    builders = builders;
  }

  pub configuration-IsSound : IsSound configuration
  configuration-IsSound = record {
    unset = refl;
    faithful = value_IsFaithful 0 (λ b. refl) (λ a b. refl) ▸ tt;
  }
