-- ===== src/ApplyConfiguration/Agentgateway/AwsGuardrailConfig.antt =====
-- mycelium/internal/applyconfiguration/v1alpha1/agentgateway/awsguardrailconfig.go
use agentic_platform.Prelude.{List, Option, String, [], none, refl, some, ◌∷◌}
use agentic_platform.ApplyConfiguration.Json.{Fields, Json, object_of, pointer_field, text}
use agentic_platform.ApplyConfiguration.Foreign.{Foreign}
use agentic_platform.ApplyConfiguration.Builder.{Builder, Configuration, IsSound, ◌▸◌}
use agentic_platform.ApplyConfiguration.Builder.Kinds.{value_builder, value_IsFaithful}

module _ (x : Foreign) where
  pub record AwsGuardrailConfig : Type 0 where
    pub guardrail_identifier : Option String
    pub guardrail_version : Option String

  abbrev pub aws_guardrail_config : AwsGuardrailConfig
  aws_guardrail_config = record { guardrail_identifier = none; guardrail_version = none }

  abbrev pub with_guardrail_identifier : String → AwsGuardrailConfig → AwsGuardrailConfig
  with_guardrail_identifier v b = record b { guardrail_identifier = some v }

  abbrev pub with_guardrail_version : String → AwsGuardrailConfig → AwsGuardrailConfig
  with_guardrail_version v b = record b { guardrail_version = some v }

  abbrev pub aws_guardrail_config_fields : AwsGuardrailConfig → Fields
  aws_guardrail_config_fields b =
      ("identifier", pointer_field text b.guardrail_identifier)
      ∷ ("version", pointer_field text b.guardrail_version)
      ∷ []

  abbrev pub encode_aws_guardrail_config : AwsGuardrailConfig → Json
  encode_aws_guardrail_config b = object_of (aws_guardrail_config_fields b)

  abbrev pub builders : List (Builder aws_guardrail_config_fields)
  builders =
      value_builder aws_guardrail_config_fields "identifier" text with_guardrail_identifier
      ∷ value_builder aws_guardrail_config_fields "version" text with_guardrail_version
      ∷ []

  abbrev pub configuration : Configuration
  configuration = record {
    Self = AwsGuardrailConfig;
    fields = aws_guardrail_config_fields;
    empty = aws_guardrail_config;
    builders = builders;
  }

  pub configuration-IsSound : IsSound configuration
  configuration-IsSound = record {
    unset = refl;
    faithful =
        value_IsFaithful 0 (λ b. refl) (λ a b. refl)
        ▸ value_IsFaithful 1 (λ b. refl) (λ a b. refl)
        ▸ tt;
  }
