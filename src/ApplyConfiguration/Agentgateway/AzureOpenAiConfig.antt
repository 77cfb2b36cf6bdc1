-- ===== src/ApplyConfiguration/Agentgateway/AzureOpenAiConfig.antt =====
-- mycelium/internal/applyconfiguration/v1alpha1/agentgateway/azureopenaiconfig.go
use agentic_platform.Prelude.{List, Option, String, [], none, refl, some, ◌∷◌}
use agentic_platform.ApplyConfiguration.Json.{Fields, Json, object_of, pointer_field, text}
use agentic_platform.ApplyConfiguration.Foreign.{Foreign}
use agentic_platform.ApplyConfiguration.Builder.{Builder, Configuration, IsSound, ◌▸◌}
use agentic_platform.ApplyConfiguration.Builder.Kinds.{value_builder, value_IsFaithful}

module _ (x : Foreign) where
  pub record AzureOpenAiConfig : Type 0 where
    pub endpoint : Option String
    pub deployment_name : Option String
    pub api_version : Option String

  abbrev pub azure_open_ai_config : AzureOpenAiConfig
  azure_open_ai_config = record { endpoint = none; deployment_name = none; api_version = none }

  abbrev pub with_endpoint : String → AzureOpenAiConfig → AzureOpenAiConfig
  with_endpoint v b = record b { endpoint = some v }

  abbrev pub with_deployment_name : String → AzureOpenAiConfig → AzureOpenAiConfig
  with_deployment_name v b = record b { deployment_name = some v }

  abbrev pub with_api_version : String → AzureOpenAiConfig → AzureOpenAiConfig
  with_api_version v b = record b { api_version = some v }

  abbrev pub azure_open_ai_config_fields : AzureOpenAiConfig → Fields
  azure_open_ai_config_fields b =
      ("endpoint", pointer_field text b.endpoint)
      ∷ ("deploymentName", pointer_field text b.deployment_name)
      ∷ ("apiVersion", pointer_field text b.api_version)
      ∷ []

  abbrev pub encode_azure_open_ai_config : AzureOpenAiConfig → Json
  encode_azure_open_ai_config b = object_of (azure_open_ai_config_fields b)

  abbrev pub builders : List (Builder azure_open_ai_config_fields)
  builders =
      value_builder azure_open_ai_config_fields "endpoint" text with_endpoint
      ∷ value_builder azure_open_ai_config_fields "deploymentName" text with_deployment_name
      ∷ value_builder azure_open_ai_config_fields "apiVersion" text with_api_version
      ∷ []

  abbrev pub configuration : Configuration
  configuration = record {
    Self = AzureOpenAiConfig;
    fields = azure_open_ai_config_fields;
    empty = azure_open_ai_config;
    builders = builders;
  }

  pub configuration-IsSound : IsSound configuration
  configuration-IsSound = record {
    unset = refl;
    faithful =
        value_IsFaithful 0 (λ b. refl) (λ a b. refl)
        ▸ value_IsFaithful 1 (λ b. refl) (λ a b. refl)
        ▸ value_IsFaithful 2 (λ b. refl) (λ a b. refl)
        ▸ tt;
  }
