-- ===== src/ApplyConfiguration/Agentgateway/BedrockConfig.antt =====
-- mycelium/internal/applyconfiguration/v1alpha1/agentgateway/bedrockconfig.go
use agentic_platform.Prelude.{List, Option, String, [], none, refl, some, ◌∷◌}
use agentic_platform.ApplyConfiguration.Json.{Fields, Json, object_of, pointer_field, text}
use agentic_platform.ApplyConfiguration.Foreign.{Foreign}
use agentic_platform.ApplyConfiguration.Builder.{Builder, Configuration, IsSound, ◌▸◌}
use agentic_platform.ApplyConfiguration.Builder.Kinds.{
  pointer_builder, pointer_IsFaithful, value_builder, value_IsFaithful,
}
use agentic_platform.ApplyConfiguration.Agentgateway.AwsGuardrailConfig.{
  AwsGuardrailConfig, encode_aws_guardrail_config,
}

module _ (x : Foreign) where
  pub record BedrockConfig : Type 0 where
    pub region : Option String
    pub model : Option String
    pub guardrail : Option (AwsGuardrailConfig x)

  abbrev pub bedrock_config : BedrockConfig
  bedrock_config = record { region = none; model = none; guardrail = none }

  abbrev pub with_region : String → BedrockConfig → BedrockConfig
  with_region v b = record b { region = some v }

  abbrev pub with_model : String → BedrockConfig → BedrockConfig
  with_model v b = record b { model = some v }

  abbrev pub with_guardrail : Option (AwsGuardrailConfig x) → BedrockConfig → BedrockConfig
  with_guardrail v b = record b { guardrail = v }

  abbrev pub bedrock_config_fields : BedrockConfig → Fields
  bedrock_config_fields b =
      ("region", pointer_field text b.region)
      ∷ ("model", pointer_field text b.model)
      ∷ ("guardrail", pointer_field (encode_aws_guardrail_config x) b.guardrail)
      ∷ []

  abbrev pub encode_bedrock_config : BedrockConfig → Json
  encode_bedrock_config b = object_of (bedrock_config_fields b)

  abbrev pub builders : List (Builder bedrock_config_fields)
  builders =
      value_builder bedrock_config_fields "region" text with_region
      ∷ value_builder bedrock_config_fields "model" text with_model
      ∷ pointer_builder bedrock_config_fields "guardrail" (encode_aws_guardrail_config x)
          with_guardrail
      ∷ []

  abbrev pub configuration : Configuration
  configuration = record {
    Self = BedrockConfig;
    fields = bedrock_config_fields;
    empty = bedrock_config;
    builders = builders;
  }

  pub configuration-IsSound : IsSound configuration
  configuration-IsSound = record {
    unset = refl;
    faithful =
        value_IsFaithful 0 (λ b. refl) (λ a b. refl)
        ▸ value_IsFaithful 1 (λ b. refl) (λ a b. refl)
        ▸ pointer_IsFaithful 2 (λ b. refl) (λ a b. refl)
        ▸ tt;
  }
