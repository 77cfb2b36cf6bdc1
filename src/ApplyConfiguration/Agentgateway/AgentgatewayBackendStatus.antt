-- ===== src/ApplyConfiguration/Agentgateway/AgentgatewayBackendStatus.antt =====
-- mycelium/internal/applyconfiguration/v1alpha1/agentgateway/agentgatewaybackendstatus.go
use agentic_platform.Prelude.{List, Option, [], refl, ◌∷◌}
use agentic_platform.ApplyConfiguration.{Outcome, map_outcome}
use agentic_platform.ApplyConfiguration.Appends.{append_pointers}
use agentic_platform.ApplyConfiguration.Json.{Fields, Json, object_of, slice_field}
use agentic_platform.ApplyConfiguration.Foreign.{Foreign}
use agentic_platform.ApplyConfiguration.Builder.{Builder, Configuration, IsSound, ◌▸◌}
use agentic_platform.ApplyConfiguration.Builder.Kinds.{pointers_builder, pointers_IsFaithful}

module _ (x : Foreign) where
  pub record AgentgatewayBackendStatus : Type 0 where
    pub conditions : List x.condition.Carrier

  abbrev pub agentgateway_backend_status : AgentgatewayBackendStatus
  agentgateway_backend_status = record { conditions = [] }

  abbrev pub with_conditions :
      List (Option x.condition.Carrier)
      → AgentgatewayBackendStatus
      → Outcome AgentgatewayBackendStatus
  with_conditions values b =
      map_outcome (λ xs. record b { conditions = xs })
        (append_pointers "WithConditions" values b.conditions)

  abbrev pub agentgateway_backend_status_fields : AgentgatewayBackendStatus → Fields
  agentgateway_backend_status_fields b =
      ("conditions", slice_field x.condition.encode b.conditions) ∷ []

  abbrev pub encode_agentgateway_backend_status : AgentgatewayBackendStatus → Json
  encode_agentgateway_backend_status b = object_of (agentgateway_backend_status_fields b)

  abbrev pub builders : List (Builder agentgateway_backend_status_fields)
  builders =
      pointers_builder agentgateway_backend_status_fields "conditions" x.condition.encode
        "WithConditions" with_conditions
      ∷ []

  abbrev pub configuration : Configuration
  configuration = record {
    Self = AgentgatewayBackendStatus;
    fields = agentgateway_backend_status_fields;
    empty = agentgateway_backend_status;
    builders = builders;
  }

  pub configuration-IsSound : IsSound configuration
  configuration-IsSound = record {
    unset = refl;
    faithful =
        pointers_IsFaithful 0 (λ b. refl) (λ b. b.conditions) (λ xs b. record b { conditions = xs })
          (λ xs b. refl) (λ b. refl) "WithConditions" (λ a b. refl)
        ▸ tt;
  }
