-- ===== src/ApplyConfiguration/Agentgateway/AgentExtAuthGrpc.antt =====
-- mycelium/internal/applyconfiguration/v1alpha1/agentgateway/agentextauthgrpc.go
use agentic_platform.Prelude.{List, String, [], none, refl, ◌∷◌}
use agentic_platform.ApplyConfiguration.{Outcome, map_outcome}
use agentic_platform.ApplyConfiguration.Maps.{GoMap, put_entries}
use agentic_platform.ApplyConfiguration.Json.{Fields, Json, map_field, object_of, text}
use agentic_platform.ApplyConfiguration.Foreign.{Foreign}
use agentic_platform.ApplyConfiguration.Builder.{Builder, Configuration, IsSound, ◌▸◌}
use agentic_platform.ApplyConfiguration.Builder.Kinds.{entries_builder, entries_IsFaithful}

module _ (x : Foreign) where
  pub record AgentExtAuthGrpc : Type 0 where
    pub context_extensions : GoMap String
    pub request_metadata : GoMap x.cel_expression.Carrier

  abbrev pub agent_ext_auth_grpc : AgentExtAuthGrpc
  agent_ext_auth_grpc = record { context_extensions = none; request_metadata = none }

  abbrev pub with_context_extensions :
      List (String × String) → AgentExtAuthGrpc → Outcome AgentExtAuthGrpc
  with_context_extensions entries b =
      map_outcome (λ m. record b { context_extensions = m })
        (put_entries entries b.context_extensions)

  abbrev pub with_request_metadata :
      List (String × x.cel_expression.Carrier) → AgentExtAuthGrpc → Outcome AgentExtAuthGrpc
  with_request_metadata entries b =
      map_outcome (λ m. record b { request_metadata = m }) (put_entries entries b.request_metadata)

  abbrev pub agent_ext_auth_grpc_fields : AgentExtAuthGrpc → Fields
  agent_ext_auth_grpc_fields b =
      ("contextExtensions", map_field text b.context_extensions)
      ∷ ("requestMetadata", map_field x.cel_expression.encode b.request_metadata)
      ∷ []

  abbrev pub encode_agent_ext_auth_grpc : AgentExtAuthGrpc → Json
  encode_agent_ext_auth_grpc b = object_of (agent_ext_auth_grpc_fields b)

  abbrev pub builders : List (Builder agent_ext_auth_grpc_fields)
  builders =
      entries_builder agent_ext_auth_grpc_fields "contextExtensions" text with_context_extensions
      ∷ entries_builder agent_ext_auth_grpc_fields "requestMetadata" x.cel_expression.encode
          with_request_metadata
      ∷ []

  abbrev pub configuration : Configuration
  configuration = record {
    Self = AgentExtAuthGrpc;
    fields = agent_ext_auth_grpc_fields;
    empty = agent_ext_auth_grpc;
    builders = builders;
  }

  pub configuration-IsSound : IsSound configuration
  configuration-IsSound = record {
    unset = refl;
    faithful =
        entries_IsFaithful 0 (λ b. refl) (λ b. b.context_extensions)
          (λ m b. record b { context_extensions = m }) (λ m b. refl) (λ b. refl) (λ a b. refl)
        ▸ entries_IsFaithful 1 (λ b. refl) (λ b. b.request_metadata)
            (λ m b. record b { request_metadata = m }) (λ m b. refl) (λ b. refl) (λ a b. refl)
        ▸ tt;
  }
