-- ===== src/ApplyConfiguration/Agentgateway/AgentgatewayParametersOverlays.antt =====
-- mycelium/internal/applyconfiguration/v1alpha1/agentgateway/agentgatewayparametersoverlays.go
use agentic_platform.Prelude.{List, Option, [], none, refl, some, ◌∷◌}
use agentic_platform.ApplyConfiguration.Json.{Fields, Json, object_of, pointer_field}
use agentic_platform.ApplyConfiguration.Foreign.{Foreign}
use agentic_platform.ApplyConfiguration.Builder.{Builder, Configuration, IsSound, ◌▸◌}
use agentic_platform.ApplyConfiguration.Builder.Kinds.{value_builder, value_IsFaithful}

module _ (x : Foreign) where
  pub record AgentgatewayParametersOverlays : Type 0 where
    pub deployment : Option x.kubernetes_resource_overlay.Carrier
    pub service : Option x.kubernetes_resource_overlay.Carrier
    pub service_account : Option x.kubernetes_resource_overlay.Carrier
    pub pod_disruption_budget : Option x.kubernetes_resource_overlay.Carrier
    pub horizontal_pod_autoscaler : Option x.kubernetes_resource_overlay.Carrier

  abbrev pub agentgateway_parameters_overlays : AgentgatewayParametersOverlays
  agentgateway_parameters_overlays = record {
    deployment = none;
    service = none;
    service_account = none;
    pod_disruption_budget = none;
    horizontal_pod_autoscaler = none;
  }

  abbrev pub with_deployment :
      x.kubernetes_resource_overlay.Carrier
      → AgentgatewayParametersOverlays
      → AgentgatewayParametersOverlays
  with_deployment v b = record b { deployment = some v }

  abbrev pub with_service :
      x.kubernetes_resource_overlay.Carrier
      → AgentgatewayParametersOverlays
      → AgentgatewayParametersOverlays
  with_service v b = record b { service = some v }

  abbrev pub with_service_account :
      x.kubernetes_resource_overlay.Carrier
      → AgentgatewayParametersOverlays
      → AgentgatewayParametersOverlays
  with_service_account v b = record b { service_account = some v }

  abbrev pub with_pod_disruption_budget :
      x.kubernetes_resource_overlay.Carrier
      → AgentgatewayParametersOverlays
      → AgentgatewayParametersOverlays
  with_pod_disruption_budget v b = record b { pod_disruption_budget = some v }

  abbrev pub with_horizontal_pod_autoscaler :
      x.kubernetes_resource_overlay.Carrier
      → AgentgatewayParametersOverlays
      → AgentgatewayParametersOverlays
  with_horizontal_pod_autoscaler v b = record b { horizontal_pod_autoscaler = some v }

  abbrev pub agentgateway_parameters_overlays_fields : AgentgatewayParametersOverlays → Fields
  agentgateway_parameters_overlays_fields b =
      ("deployment", pointer_field x.kubernetes_resource_overlay.encode b.deployment)
      ∷ ("service", pointer_field x.kubernetes_resource_overlay.encode b.service)
      ∷ ("serviceAccount", pointer_field x.kubernetes_resource_overlay.encode b.service_account)
      ∷ (
        "podDisruptionBudget",
        pointer_field x.kubernetes_resource_overlay.encode b.pod_disruption_budget,
      )
      ∷ (
        "horizontalPodAutoscaler",
        pointer_field x.kubernetes_resource_overlay.encode b.horizontal_pod_autoscaler,
      )
      ∷ []

  abbrev pub encode_agentgateway_parameters_overlays : AgentgatewayParametersOverlays → Json
  encode_agentgateway_parameters_overlays b = object_of (agentgateway_parameters_overlays_fields b)

  abbrev pub builders : List (Builder agentgateway_parameters_overlays_fields)
  builders =
      value_builder agentgateway_parameters_overlays_fields "deployment"
        x.kubernetes_resource_overlay.encode with_deployment
      ∷ value_builder agentgateway_parameters_overlays_fields "service"
          x.kubernetes_resource_overlay.encode with_service
      ∷ value_builder agentgateway_parameters_overlays_fields "serviceAccount"
          x.kubernetes_resource_overlay.encode with_service_account
      ∷ value_builder agentgateway_parameters_overlays_fields "podDisruptionBudget"
          x.kubernetes_resource_overlay.encode with_pod_disruption_budget
      ∷ value_builder agentgateway_parameters_overlays_fields "horizontalPodAutoscaler"
          x.kubernetes_resource_overlay.encode with_horizontal_pod_autoscaler
      ∷ []

  abbrev pub configuration : Configuration
  configuration = record {
    Self = AgentgatewayParametersOverlays;
    fields = agentgateway_parameters_overlays_fields;
    empty = agentgateway_parameters_overlays;
    builders = builders;
  }

  pub configuration-IsSound : IsSound configuration
  configuration-IsSound = record {
    unset = refl;
    faithful =
        value_IsFaithful 0 (λ b. refl) (λ a b. refl)
        ▸ value_IsFaithful 1 (λ b. refl) (λ a b. refl)
        ▸ value_IsFaithful 2 (λ b. refl) (λ a b. refl)
        ▸ value_IsFaithful 3 (λ b. refl) (λ a b. refl)
        ▸ value_IsFaithful 4 (λ b. refl) (λ a b. refl)
        ▸ tt;
  }
