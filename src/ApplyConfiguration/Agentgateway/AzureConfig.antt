-- ===== src/ApplyConfiguration/Agentgateway/AzureConfig.antt =====
-- mycelium/internal/applyconfiguration/v1alpha1/agentgateway/azureconfig.go
use agentic_platform.Prelude.{List, Option, String, [], none, refl, some, ◌∷◌}
use agentic_platform.ApplyConfiguration.Json.{Fields, Json, object_of, pointer_field, text}
use agentic_platform.ApplyConfiguration.Foreign.{Foreign}
use agentic_platform.ApplyConfiguration.Builder.{Builder, Configuration, IsSound, ◌▸◌}
use agentic_platform.ApplyConfiguration.Builder.Kinds.{value_builder, value_IsFaithful}

module _ (x : Foreign) where
  pub record AzureConfig : Type 0 where
    pub resource_name : Option String
    pub resource_type : Option x.azure_resource_type.Carrier
    pub model : Option String
    pub api_version : Option String
    pub project_name : Option String

  abbrev pub azure_config : AzureConfig
  azure_config = record {
    resource_name = none;
    resource_type = none;
    model = none;
    api_version = none;
    project_name = none;
  }

  abbrev pub with_resource_name : String → AzureConfig → AzureConfig
  with_resource_name v b = record b { resource_name = some v }

  abbrev pub with_resource_type : x.azure_resource_type.Carrier → AzureConfig → AzureConfig
  with_resource_type v b = record b { resource_type = some v }

  abbrev pub with_model : String → AzureConfig → AzureConfig
  with_model v b = record b { model = some v }

  abbrev pub with_api_version : String → AzureConfig → AzureConfig
  with_api_version v b = record b { api_version = some v }

  abbrev pub with_project_name : String → AzureConfig → AzureConfig
  with_project_name v b = record b { project_name = some v }

  abbrev pub azure_config_fields : AzureConfig → Fields
  azure_config_fields b =
      ("resourceName", pointer_field text b.resource_name)
      ∷ ("resourceType", pointer_field x.azure_resource_type.encode b.resource_type)
      ∷ ("model", pointer_field text b.model)
      ∷ ("apiVersion", pointer_field text b.api_version)
      ∷ ("projectName", pointer_field text b.project_name)
      ∷ []

  abbrev pub encode_azure_config : AzureConfig → Json
  encode_azure_config b = object_of (azure_config_fields b)

  abbrev pub builders : List (Builder azure_config_fields)
  builders =
      value_builder azure_config_fields "resourceName" text with_resource_name
      ∷ value_builder azure_config_fields "resourceType" x.azure_resource_type.encode
          with_resource_type
      ∷ value_builder azure_config_fields "model" text with_model
      ∷ value_builder azure_config_fields "apiVersion" text with_api_version
      ∷ value_builder azure_config_fields "projectName" text with_project_name
      ∷ []

  abbrev pub configuration : Configuration
  configuration = record {
    Self = AzureConfig;
    fields = azure_config_fields;
    empty = azure_config;
    builders = builders;
  }

  pub configuration-IsSound : IsSound configuration
  configuration-IsSound = record {
    unset = refl;
    faithful =
        value_IsFaithful 0 (λ b. refl) (λ a b. refl)
        ▸ value_IsFaithful 1 (λ b. refl) (λ a b. refl)
        ▸ value_IsFaithful 2 (λ b. refl) (λ a b. refl)
        ▸ value_IsFaithful 3 (λ b. refl) (λ a b. refl)
        ▸ value_IsFaithful 4 (λ b. refl) (λ a b. refl)
        ▸ tt;
  }
