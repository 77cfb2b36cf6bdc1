-- ===== src/ApplyConfiguration/Agentgateway/AgentgatewayParametersSpec.antt =====
-- mycelium/internal/applyconfiguration/v1alpha1/agentgateway/agentgatewayparametersspec.go
use agentic_platform.Prelude.{List, Option, [], refl, some, ◌++◌, ◌∷◌}
use agentic_platform.ApplyConfiguration.Appends.{append_values}
use agentic_platform.ApplyConfiguration.Json.{Fields, Json, object_of}
use agentic_platform.ApplyConfiguration.Foreign.{Foreign}
use agentic_platform.ApplyConfiguration.Builder.{Builder, Configuration, IsSound, ◌▸◌}
use agentic_platform.ApplyConfiguration.Builder.Kinds.{
  pointer_builder, pointer_IsFaithful, value_builder, value_IsFaithful, values_builder,
  values_IsFaithful,
}
use agentic_platform.ApplyConfiguration.Agentgateway.AgentgatewayParametersConfigs.{
  AgentgatewayParametersConfigs, agentgateway_parameters_configs,
  agentgateway_parameters_configs_fields,
}
use agentic_platform.ApplyConfiguration.Agentgateway.AgentgatewayParametersLogging.{
  AgentgatewayParametersLogging, encode_agentgateway_parameters_logging,
}
use agentic_platform.ApplyConfiguration.Agentgateway.AgentgatewayParametersOverlays.{
  AgentgatewayParametersOverlays, agentgateway_parameters_overlays,
  agentgateway_parameters_overlays_fields,
}
use agentic_platform.ApplyConfiguration.Agentgateway.Image.{Image, encode_image}
use agentic_platform.ApplyConfiguration.Agentgateway.IstioSpec.{IstioSpec, encode_istio_spec}
use agentic_platform.ApplyConfiguration.Agentgateway.ShutdownSpec.{
  ShutdownSpec, encode_shutdown_spec,
}

module _ (x : Foreign) where
  pub record AgentgatewayParametersSpec : Type 0 where
    pub agentgateway_parameters_configs : AgentgatewayParametersConfigs x
    pub agentgateway_parameters_overlays : AgentgatewayParametersOverlays x

  abbrev pub agentgateway_parameters_spec : AgentgatewayParametersSpec
  agentgateway_parameters_spec = record {
    agentgateway_parameters_configs = agentgateway_parameters_configs x;
    agentgateway_parameters_overlays = agentgateway_parameters_overlays x;
  }

  abbrev pub with_logging :
      Option (AgentgatewayParametersLogging x)
      → AgentgatewayParametersSpec
      → AgentgatewayParametersSpec
  with_logging v b = record b {
    agentgateway_parameters_configs = record (b.agentgateway_parameters_configs) { logging = v };
  }

  abbrev pub with_raw_config :
      x.json.Carrier → AgentgatewayParametersSpec → AgentgatewayParametersSpec
  with_raw_config v b = record b {
    agentgateway_parameters_configs = record (b.agentgateway_parameters_configs) {
      raw_config = some v;
    };
  }

  abbrev pub with_image : Option (Image x) → AgentgatewayParametersSpec → AgentgatewayParametersSpec
  with_image v b = record b {
    agentgateway_parameters_configs = record (b.agentgateway_parameters_configs) { image = v };
  }

  abbrev pub with_env :
      List x.env_var.Carrier → AgentgatewayParametersSpec → AgentgatewayParametersSpec
  with_env values b = record b {
    agentgateway_parameters_configs = record (b.agentgateway_parameters_configs) {
      env = append_values values b.agentgateway_parameters_configs.env;
    };
  }

  abbrev pub with_resources :
      x.resource_requirements.Carrier → AgentgatewayParametersSpec → AgentgatewayParametersSpec
  with_resources v b = record b {
    agentgateway_parameters_configs = record (b.agentgateway_parameters_configs) {
      resources = some v;
    };
  }

  abbrev pub with_shutdown :
      Option (ShutdownSpec x) → AgentgatewayParametersSpec → AgentgatewayParametersSpec
  with_shutdown v b = record b {
    agentgateway_parameters_configs = record (b.agentgateway_parameters_configs) { shutdown = v };
  }

  abbrev pub with_istio :
      Option (IstioSpec x) → AgentgatewayParametersSpec → AgentgatewayParametersSpec
  with_istio v b = record b {
    agentgateway_parameters_configs = record (b.agentgateway_parameters_configs) { istio = v };
  }

  abbrev pub with_deployment :
      x.kubernetes_resource_overlay.Carrier
      → AgentgatewayParametersSpec
      → AgentgatewayParametersSpec
  with_deployment v b = record b {
    agentgateway_parameters_overlays = record (b.agentgateway_parameters_overlays) {
      deployment = some v;
    };
  }

  abbrev pub with_service :
      x.kubernetes_resource_overlay.Carrier
      → AgentgatewayParametersSpec
      → AgentgatewayParametersSpec
  with_service v b = record b {
    agentgateway_parameters_overlays = record (b.agentgateway_parameters_overlays) {
      service = some v;
    };
  }

  abbrev pub with_service_account :
      x.kubernetes_resource_overlay.Carrier
      → AgentgatewayParametersSpec
      → AgentgatewayParametersSpec
  with_service_account v b = record b {
    agentgateway_parameters_overlays = record (b.agentgateway_parameters_overlays) {
      service_account = some v;
    };
  }

  abbrev pub with_pod_disruption_budget :
      x.kubernetes_resource_overlay.Carrier
      → AgentgatewayParametersSpec
      → AgentgatewayParametersSpec
  with_pod_disruption_budget v b = record b {
    agentgateway_parameters_overlays = record (b.agentgateway_parameters_overlays) {
      pod_disruption_budget = some v;
    };
  }

  abbrev pub with_horizontal_pod_autoscaler :
      x.kubernetes_resource_overlay.Carrier
      → AgentgatewayParametersSpec
      → AgentgatewayParametersSpec
  with_horizontal_pod_autoscaler v b = record b {
    agentgateway_parameters_overlays = record (b.agentgateway_parameters_overlays) {
      horizontal_pod_autoscaler = some v;
    };
  }

  abbrev pub agentgateway_parameters_spec_fields : AgentgatewayParametersSpec → Fields
  agentgateway_parameters_spec_fields b =
      agentgateway_parameters_configs_fields x b.agentgateway_parameters_configs
      ++ agentgateway_parameters_overlays_fields x b.agentgateway_parameters_overlays

  abbrev pub encode_agentgateway_parameters_spec : AgentgatewayParametersSpec → Json
  encode_agentgateway_parameters_spec b = object_of (agentgateway_parameters_spec_fields b)

  abbrev pub builders : List (Builder agentgateway_parameters_spec_fields)
  builders =
      pointer_builder agentgateway_parameters_spec_fields "logging"
        (encode_agentgateway_parameters_logging x) with_logging
      ∷ value_builder agentgateway_parameters_spec_fields "rawConfig" x.json.encode with_raw_config
      ∷ pointer_builder agentgateway_parameters_spec_fields "image" (encode_image x) with_image
      ∷ values_builder agentgateway_parameters_spec_fields "env" x.env_var.encode with_env
      ∷ value_builder agentgateway_parameters_spec_fields "resources" x.resource_requirements.encode
          with_resources
      ∷ pointer_builder agentgateway_parameters_spec_fields "shutdown" (encode_shutdown_spec x)
          with_shutdown
      ∷ pointer_builder agentgateway_parameters_spec_fields "istio" (encode_istio_spec x) with_istio
      ∷ value_builder agentgateway_parameters_spec_fields "deployment"
          x.kubernetes_resource_overlay.encode with_deployment
      ∷ value_builder agentgateway_parameters_spec_fields "service"
          x.kubernetes_resource_overlay.encode with_service
      ∷ value_builder agentgateway_parameters_spec_fields "serviceAccount"
          x.kubernetes_resource_overlay.encode with_service_account
      ∷ value_builder agentgateway_parameters_spec_fields "podDisruptionBudget"
          x.kubernetes_resource_overlay.encode with_pod_disruption_budget
      ∷ value_builder agentgateway_parameters_spec_fields "horizontalPodAutoscaler"
          x.kubernetes_resource_overlay.encode with_horizontal_pod_autoscaler
      ∷ []

  abbrev pub configuration : Configuration
  configuration = record {
    Self = AgentgatewayParametersSpec;
    fields = agentgateway_parameters_spec_fields;
    empty = agentgateway_parameters_spec;
    builders = builders;
  }

  pub configuration-IsSound : IsSound configuration
  configuration-IsSound = record {
    unset = refl;
    faithful =
        pointer_IsFaithful 0 (λ b. refl) (λ a b. refl)
        ▸ value_IsFaithful 1 (λ b. refl) (λ a b. refl)
        ▸ pointer_IsFaithful 2 (λ b. refl) (λ a b. refl)
        ▸ values_IsFaithful 3 (λ b. refl) (λ b. b.agentgateway_parameters_configs.env)
            (λ xs b. record b {
              agentgateway_parameters_configs = record (b.agentgateway_parameters_configs) {
                env = xs;
              };
            })
            (λ xs b. refl) (λ b. refl) (λ a b. refl)
        ▸ value_IsFaithful 4 (λ b. refl) (λ a b. refl)
        ▸ pointer_IsFaithful 5 (λ b. refl) (λ a b. refl)
        ▸ pointer_IsFaithful 6 (λ b. refl) (λ a b. refl)
        ▸ value_IsFaithful 7 (λ b. refl) (λ a b. refl)
        ▸ value_IsFaithful 8 (λ b. refl) (λ a b. refl)
        ▸ value_IsFaithful 9 (λ b. refl) (λ a b. refl)
        ▸ value_IsFaithful 10 (λ b. refl) (λ a b. refl)
        ▸ value_IsFaithful 11 (λ b. refl) (λ a b. refl)
        ▸ tt;
  }
