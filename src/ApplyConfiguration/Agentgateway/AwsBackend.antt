-- ===== src/ApplyConfiguration/Agentgateway/AwsBackend.antt =====
-- mycelium/internal/applyconfiguration/v1alpha1/agentgateway/awsbackend.go
use agentic_platform.Prelude.{List, Option, [], none, refl, ◌∷◌}
use agentic_platform.ApplyConfiguration.Json.{Fields, Json, object_of, pointer_field}
use agentic_platform.ApplyConfiguration.Foreign.{Foreign}
use agentic_platform.ApplyConfiguration.Builder.{Builder, Configuration, IsSound, ◌▸◌}
use agentic_platform.ApplyConfiguration.Builder.Kinds.{pointer_builder, pointer_IsFaithful}
use agentic_platform.ApplyConfiguration.Agentgateway.AwsAgentCoreBackend.{
  AwsAgentCoreBackend, encode_aws_agent_core_backend,
}

module _ (x : Foreign) where
  pub record AwsBackend : Type 0 where
    pub agent_core : Option (AwsAgentCoreBackend x)

  abbrev pub aws_backend : AwsBackend
  aws_backend = record { agent_core = none }

  abbrev pub with_agent_core : Option (AwsAgentCoreBackend x) → AwsBackend → AwsBackend
  with_agent_core v b = record b { agent_core = v }

  abbrev pub aws_backend_fields : AwsBackend → Fields
  aws_backend_fields b =
      ("agentCore", pointer_field (encode_aws_agent_core_backend x) b.agent_core) ∷ []

  abbrev pub encode_aws_backend : AwsBackend → Json
  encode_aws_backend b = object_of (aws_backend_fields b)

  abbrev pub builders : List (Builder aws_backend_fields)
  builders =
      pointer_builder aws_backend_fields "agentCore" (encode_aws_agent_core_backend x)
        with_agent_core
      ∷ []

  abbrev pub configuration : Configuration
  configuration = record {
    Self = AwsBackend;
    fields = aws_backend_fields;
    empty = aws_backend;
    builders = builders;
  }

  pub configuration-IsSound : IsSound configuration
  configuration-IsSound = record {
    unset = refl;
    faithful = pointer_IsFaithful 0 (λ b. refl) (λ a b. refl) ▸ tt;
  }
