-- ===== src/ApplyConfiguration/Agentgateway/AgentgatewayParametersConfigs.antt =====
-- mycelium/internal/applyconfiguration/v1alpha1/agentgateway/agentgatewayparametersconfigs.go
use agentic_platform.Prelude.{List, Option, [], none, refl, some, ◌∷◌}
use agentic_platform.ApplyConfiguration.Appends.{append_values}
use agentic_platform.ApplyConfiguration.Json.{Fields, Json, object_of, pointer_field, slice_field}
use agentic_platform.ApplyConfiguration.Foreign.{Foreign}
use agentic_platform.ApplyConfiguration.Builder.{Builder, Configuration, IsSound, ◌▸◌}
use agentic_platform.ApplyConfiguration.Builder.Kinds.{
  pointer_builder, pointer_IsFaithful, value_builder, value_IsFaithful, values_builder,
  values_IsFaithful,
}
use agentic_platform.ApplyConfiguration.Agentgateway.AgentgatewayParametersLogging.{
  AgentgatewayParametersLogging, encode_agentgateway_parameters_logging,
}
use agentic_platform.ApplyConfiguration.Agentgateway.Image.{Image, encode_image}
use agentic_platform.ApplyConfiguration.Agentgateway.IstioSpec.{IstioSpec, encode_istio_spec}
use agentic_platform.ApplyConfiguration.Agentgateway.ShutdownSpec.{
  ShutdownSpec, encode_shutdown_spec,
}

module _ (x : Foreign) where
  pub record AgentgatewayParametersConfigs : Type 0 where
    pub logging : Option (AgentgatewayParametersLogging x)
    pub raw_config : Option x.json.Carrier
    pub image : Option (Image x)
    pub env : List x.env_var.Carrier
    pub resources : Option x.resource_requirements.Carrier
    pub shutdown : Option (ShutdownSpec x)
    pub istio : Option (IstioSpec x)

  abbrev pub agentgateway_parameters_configs : AgentgatewayParametersConfigs
  agentgateway_parameters_configs = record {
    logging = none;
    raw_config = none;
    image = none;
    env = [];
    resources = none;
    shutdown = none;
    istio = none;
  }

  abbrev pub with_logging :
      Option (AgentgatewayParametersLogging x)
      → AgentgatewayParametersConfigs
      → AgentgatewayParametersConfigs
  with_logging v b = record b { logging = v }

  abbrev pub with_raw_config :
      x.json.Carrier → AgentgatewayParametersConfigs → AgentgatewayParametersConfigs
  with_raw_config v b = record b { raw_config = some v }

  abbrev pub with_image :
      Option (Image x) → AgentgatewayParametersConfigs → AgentgatewayParametersConfigs
  with_image v b = record b { image = v }

  abbrev pub with_env :
      List x.env_var.Carrier → AgentgatewayParametersConfigs → AgentgatewayParametersConfigs
  with_env values b = record b { env = append_values values b.env }

  abbrev pub with_resources :
      x.resource_requirements.Carrier
      → AgentgatewayParametersConfigs
      → AgentgatewayParametersConfigs
  with_resources v b = record b { resources = some v }

  abbrev pub with_shutdown :
      Option (ShutdownSpec x) → AgentgatewayParametersConfigs → AgentgatewayParametersConfigs
  with_shutdown v b = record b { shutdown = v }

  abbrev pub with_istio :
      Option (IstioSpec x) → AgentgatewayParametersConfigs → AgentgatewayParametersConfigs
  with_istio v b = record b { istio = v }

  abbrev pub agentgateway_parameters_configs_fields : AgentgatewayParametersConfigs → Fields
  agentgateway_parameters_configs_fields b =
      ("logging", pointer_field (encode_agentgateway_parameters_logging x) b.logging)
      ∷ ("rawConfig", pointer_field x.json.encode b.raw_config)
      ∷ ("image", pointer_field (encode_image x) b.image)
      ∷ ("env", slice_field x.env_var.encode b.env)
      ∷ ("resources", pointer_field x.resource_requirements.encode b.resources)
      ∷ ("shutdown", pointer_field (encode_shutdown_spec x) b.shutdown)
      ∷ ("istio", pointer_field (encode_istio_spec x) b.istio)
      ∷ []

  abbrev pub encode_agentgateway_parameters_configs : AgentgatewayParametersConfigs → Json
  encode_agentgateway_parameters_configs b = object_of (agentgateway_parameters_configs_fields b)

  abbrev pub builders : List (Builder agentgateway_parameters_configs_fields)
  builders =
      pointer_builder agentgateway_parameters_configs_fields "logging"
        (encode_agentgateway_parameters_logging x) with_logging
      ∷ value_builder agentgateway_parameters_configs_fields "rawConfig" x.json.encode
          with_raw_config
      ∷ pointer_builder agentgateway_parameters_configs_fields "image" (encode_image x) with_image
      ∷ values_builder agentgateway_parameters_configs_fields "env" x.env_var.encode with_env
      ∷ value_builder agentgateway_parameters_configs_fields "resources"
          x.resource_requirements.encode with_resources
      ∷ pointer_builder agentgateway_parameters_configs_fields "shutdown" (encode_shutdown_spec x)
          with_shutdown
      ∷ pointer_builder agentgateway_parameters_configs_fields "istio" (encode_istio_spec x)
          with_istio
      ∷ []

  abbrev pub configuration : Configuration
  configuration = record {
    Self = AgentgatewayParametersConfigs;
    fields = agentgateway_parameters_configs_fields;
    empty = agentgateway_parameters_configs;
    builders = builders;
  }

  pub configuration-IsSound : IsSound configuration
  configuration-IsSound = record {
    unset = refl;
    faithful =
        pointer_IsFaithful 0 (λ b. refl) (λ a b. refl)
        ▸ value_IsFaithful 1 (λ b. refl) (λ a b. refl)
        ▸ pointer_IsFaithful 2 (λ b. refl) (λ a b. refl)
        ▸ values_IsFaithful 3 (λ b. refl) (λ b. b.env) (λ xs b. record b { env = xs })
            (λ xs b. refl) (λ b. refl) (λ a b. refl)
        ▸ value_IsFaithful 4 (λ b. refl) (λ a b. refl)
        ▸ pointer_IsFaithful 5 (λ b. refl) (λ a b. refl)
        ▸ pointer_IsFaithful 6 (λ b. refl) (λ a b. refl)
        ▸ tt;
  }
