-- ===== src/ApplyConfiguration/Agentgateway/BedrockGuardrails.antt =====
-- mycelium/internal/applyconfiguration/v1alpha1/agentgateway/bedrockguardrails.go
use agentic_platform.Prelude.{List, Option, String, [], none, refl, some, ◌∷◌}
use agentic_platform.ApplyConfiguration.Json.{Fields, Json, object_of, pointer_field, text}
use agentic_platform.ApplyConfiguration.Foreign.{Foreign}
use agentic_platform.ApplyConfiguration.Builder.{Builder, Configuration, IsSound, ◌▸◌}
use agentic_platform.ApplyConfiguration.Builder.Kinds.{
  pointer_builder, pointer_IsFaithful, value_builder, value_IsFaithful,
}
use agentic_platform.ApplyConfiguration.Agentgateway.BackendSimple.{
  BackendSimple, encode_backend_simple,
}

module _ (x : Foreign) where
  pub record BedrockGuardrails : Type 0 where
    pub guardrail_identifier : Option String
    pub guardrail_version : Option String
    pub region : Option String
    pub policies : Option (BackendSimple x)

  abbrev pub bedrock_guardrails : BedrockGuardrails
  bedrock_guardrails = record {
    guardrail_identifier = none;
    guardrail_version = none;
    region = none;
    policies = none;
  }

  abbrev pub with_guardrail_identifier : String → BedrockGuardrails → BedrockGuardrails
  with_guardrail_identifier v b = record b { guardrail_identifier = some v }

  abbrev pub with_guardrail_version : String → BedrockGuardrails → BedrockGuardrails
  with_guardrail_version v b = record b { guardrail_version = some v }

  abbrev pub with_region : String → BedrockGuardrails → BedrockGuardrails
  with_region v b = record b { region = some v }

  abbrev pub with_policies : Option (BackendSimple x) → BedrockGuardrails → BedrockGuardrails
  with_policies v b = record b { policies = v }

  abbrev pub bedrock_guardrails_fields : BedrockGuardrails → Fields
  bedrock_guardrails_fields b =
      ("identifier", pointer_field text b.guardrail_identifier)
      ∷ ("version", pointer_field text b.guardrail_version)
      ∷ ("region", pointer_field text b.region)
      ∷ ("policies", pointer_field (encode_backend_simple x) b.policies)
      ∷ []

  abbrev pub encode_bedrock_guardrails : BedrockGuardrails → Json
  encode_bedrock_guardrails b = object_of (bedrock_guardrails_fields b)

  abbrev pub builders : List (Builder bedrock_guardrails_fields)
  builders =
      value_builder bedrock_guardrails_fields "identifier" text with_guardrail_identifier
      ∷ value_builder bedrock_guardrails_fields "version" text with_guardrail_version
      ∷ value_builder bedrock_guardrails_fields "region" text with_region
      ∷ pointer_builder bedrock_guardrails_fields "policies" (encode_backend_simple x) with_policies
      ∷ []

  abbrev pub configuration : Configuration
  configuration = record {
    Self = BedrockGuardrails;
    fields = bedrock_guardrails_fields;
    empty = bedrock_guardrails;
    builders = builders;
  }

  pub configuration-IsSound : IsSound configuration
  configuration-IsSound = record {
    unset = refl;
    faithful =
        value_IsFaithful 0 (λ b. refl) (λ a b. refl)
        ▸ value_IsFaithful 1 (λ b. refl) (λ a b. refl)
        ▸ value_IsFaithful 2 (λ b. refl) (λ a b. refl)
        ▸ pointer_IsFaithful 3 (λ b. refl) (λ a b. refl)
        ▸ tt;
  }
