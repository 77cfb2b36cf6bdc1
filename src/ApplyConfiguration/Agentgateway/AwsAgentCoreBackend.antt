-- ===== src/ApplyConfiguration/Agentgateway/AwsAgentCoreBackend.antt =====
-- mycelium/internal/applyconfiguration/v1alpha1/agentgateway/awsagentcorebackend.go
use agentic_platform.Prelude.{List, Option, String, [], none, refl, some, ◌∷◌}
use agentic_platform.ApplyConfiguration.Json.{Fields, Json, object_of, pointer_field, text}
use agentic_platform.ApplyConfiguration.Foreign.{Foreign}
use agentic_platform.ApplyConfiguration.Builder.{Builder, Configuration, IsSound, ◌▸◌}
use agentic_platform.ApplyConfiguration.Builder.Kinds.{value_builder, value_IsFaithful}

module _ (x : Foreign) where
  pub record AwsAgentCoreBackend : Type 0 where
    pub agent_runtime_arn : Option String
    pub qualifier : Option String

  abbrev pub aws_agent_core_backend : AwsAgentCoreBackend
  aws_agent_core_backend = record { agent_runtime_arn = none; qualifier = none }

  abbrev pub with_agent_runtime_arn : String → AwsAgentCoreBackend → AwsAgentCoreBackend
  with_agent_runtime_arn v b = record b { agent_runtime_arn = some v }

  abbrev pub with_qualifier : String → AwsAgentCoreBackend → AwsAgentCoreBackend
  with_qualifier v b = record b { qualifier = some v }

  abbrev pub aws_agent_core_backend_fields : AwsAgentCoreBackend → Fields
  aws_agent_core_backend_fields b =
      ("agentRuntimeArn", pointer_field text b.agent_runtime_arn)
      ∷ ("qualifier", pointer_field text b.qualifier)
      ∷ []

  abbrev pub encode_aws_agent_core_backend : AwsAgentCoreBackend → Json
  encode_aws_agent_core_backend b = object_of (aws_agent_core_backend_fields b)

  abbrev pub builders : List (Builder aws_agent_core_backend_fields)
  builders =
      value_builder aws_agent_core_backend_fields "agentRuntimeArn" text with_agent_runtime_arn
      ∷ value_builder aws_agent_core_backend_fields "qualifier" text with_qualifier
      ∷ []

  abbrev pub configuration : Configuration
  configuration = record {
    Self = AwsAgentCoreBackend;
    fields = aws_agent_core_backend_fields;
    empty = aws_agent_core_backend;
    builders = builders;
  }

  pub configuration-IsSound : IsSound configuration
  configuration-IsSound = record {
    unset = refl;
    faithful =
        value_IsFaithful 0 (λ b. refl) (λ a b. refl)
        ▸ value_IsFaithful 1 (λ b. refl) (λ a b. refl)
        ▸ tt;
  }
