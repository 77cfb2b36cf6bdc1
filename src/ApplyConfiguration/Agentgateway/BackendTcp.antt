-- ===== src/ApplyConfiguration/Agentgateway/BackendTcp.antt =====
-- mycelium/internal/applyconfiguration/v1alpha1/agentgateway/backendtcp.go
use agentic_platform.Prelude.{List, Option, [], none, refl, some, ◌∷◌}
use agentic_platform.ApplyConfiguration.Json.{Fields, Json, object_of, pointer_field}
use agentic_platform.ApplyConfiguration.Foreign.{Foreign}
use agentic_platform.ApplyConfiguration.Builder.{Builder, Configuration, IsSound, ◌▸◌}
use agentic_platform.ApplyConfiguration.Builder.Kinds.{
  pointer_builder, pointer_IsFaithful, value_builder, value_IsFaithful,
}
use agentic_platform.ApplyConfiguration.Agentgateway.Keepalive.{Keepalive, encode_keepalive}

module _ (x : Foreign) where
  pub record BackendTcp : Type 0 where
    pub keepalive : Option (Keepalive x)
    pub connect_timeout : Option x.duration.Carrier

  abbrev pub backend_tcp : BackendTcp
  backend_tcp = record { keepalive = none; connect_timeout = none }

  abbrev pub with_keepalive : Option (Keepalive x) → BackendTcp → BackendTcp
  with_keepalive v b = record b { keepalive = v }

  abbrev pub with_connect_timeout : x.duration.Carrier → BackendTcp → BackendTcp
  with_connect_timeout v b = record b { connect_timeout = some v }

  abbrev pub backend_tcp_fields : BackendTcp → Fields
  backend_tcp_fields b =
      ("keepalive", pointer_field (encode_keepalive x) b.keepalive)
      ∷ ("connectTimeout", pointer_field x.duration.encode b.connect_timeout)
      ∷ []

  abbrev pub encode_backend_tcp : BackendTcp → Json
  encode_backend_tcp b = object_of (backend_tcp_fields b)

  abbrev pub builders : List (Builder backend_tcp_fields)
  builders =
      pointer_builder backend_tcp_fields "keepalive" (encode_keepalive x) with_keepalive
      ∷ value_builder backend_tcp_fields "connectTimeout" x.duration.encode with_connect_timeout
      ∷ []

  abbrev pub configuration : Configuration
  configuration = record {
    Self = BackendTcp;
    fields = backend_tcp_fields;
    empty = backend_tcp;
    builders = builders;
  }

  pub configuration-IsSound : IsSound configuration
  configuration-IsSound = record {
    unset = refl;
    faithful =
        pointer_IsFaithful 0 (λ b. refl) (λ a b. refl)
        ▸ value_IsFaithful 1 (λ b. refl) (λ a b. refl)
        ▸ tt;
  }
