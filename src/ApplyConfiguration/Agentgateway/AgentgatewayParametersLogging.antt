-- ===== src/ApplyConfiguration/Agentgateway/AgentgatewayParametersLogging.antt =====
-- mycelium/internal/applyconfiguration/v1alpha1/agentgateway/agentgatewayparameterslogging.go
use agentic_platform.Prelude.{List, Option, String, [], none, refl, some, ◌∷◌}
use agentic_platform.ApplyConfiguration.Json.{Fields, Json, object_of, pointer_field, text}
use agentic_platform.ApplyConfiguration.Foreign.{Foreign}
use agentic_platform.ApplyConfiguration.Builder.{Builder, Configuration, IsSound, ◌▸◌}
use agentic_platform.ApplyConfiguration.Builder.Kinds.{value_builder, value_IsFaithful}

module _ (x : Foreign) where
  pub record AgentgatewayParametersLogging : Type 0 where
    pub level : Option String
    pub format : Option x.agentgateway_parameters_logging_format.Carrier

  abbrev pub agentgateway_parameters_logging : AgentgatewayParametersLogging
  agentgateway_parameters_logging = record { level = none; format = none }

  abbrev pub with_level : String → AgentgatewayParametersLogging → AgentgatewayParametersLogging
  with_level v b = record b { level = some v }

  abbrev pub with_format :
      x.agentgateway_parameters_logging_format.Carrier
      → AgentgatewayParametersLogging
      → AgentgatewayParametersLogging
  with_format v b = record b { format = some v }

  abbrev pub agentgateway_parameters_logging_fields : AgentgatewayParametersLogging → Fields
  agentgateway_parameters_logging_fields b =
      ("level", pointer_field text b.level)
      ∷ ("format", pointer_field x.agentgateway_parameters_logging_format.encode b.format)
      ∷ []

  abbrev pub encode_agentgateway_parameters_logging : AgentgatewayParametersLogging → Json
  encode_agentgateway_parameters_logging b = object_of (agentgateway_parameters_logging_fields b)

  abbrev pub builders : List (Builder agentgateway_parameters_logging_fields)
  builders =
      value_builder agentgateway_parameters_logging_fields "level" text with_level
      ∷ value_builder agentgateway_parameters_logging_fields "format"
          x.agentgateway_parameters_logging_format.encode with_format
      ∷ []

  abbrev pub configuration : Configuration
  configuration = record {
    Self = AgentgatewayParametersLogging;
    fields = agentgateway_parameters_logging_fields;
    empty = agentgateway_parameters_logging;
    builders = builders;
  }

  pub configuration-IsSound : IsSound configuration
  configuration-IsSound = record {
    unset = refl;
    faithful =
        value_IsFaithful 0 (λ b. refl) (λ a b. refl)
        ▸ value_IsFaithful 1 (λ b. refl) (λ a b. refl)
        ▸ tt;
  }
