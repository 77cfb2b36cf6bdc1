-- ===== src/ApplyConfiguration/Agentgateway/BackendTunnel.antt =====
-- mycelium/internal/applyconfiguration/v1alpha1/agentgateway/backendtunnel.go
use agentic_platform.Prelude.{List, Option, [], none, refl, some, ◌∷◌}
use agentic_platform.ApplyConfiguration.Json.{Fields, Json, object_of, pointer_field}
use agentic_platform.ApplyConfiguration.Foreign.{Foreign}
use agentic_platform.ApplyConfiguration.Builder.{Builder, Configuration, IsSound, ◌▸◌}
use agentic_platform.ApplyConfiguration.Builder.Kinds.{value_builder, value_IsFaithful}

module _ (x : Foreign) where
  pub record BackendTunnel : Type 0 where
    pub backend_ref : Option x.backend_object_reference.Carrier

  abbrev pub backend_tunnel : BackendTunnel
  backend_tunnel = record { backend_ref = none }

  abbrev pub with_backend_ref : x.backend_object_reference.Carrier → BackendTunnel → BackendTunnel
  with_backend_ref v b = record b { backend_ref = some v }

  abbrev pub backend_tunnel_fields : BackendTunnel → Fields
  backend_tunnel_fields b =
      ("backendRef", pointer_field x.backend_object_reference.encode b.backend_ref) ∷ []

  abbrev pub encode_backend_tunnel : BackendTunnel → Json
  encode_backend_tunnel b = object_of (backend_tunnel_fields b)

  abbrev pub builders : List (Builder backend_tunnel_fields)
  builders =
      value_builder backend_tunnel_fields "backendRef" x.backend_object_reference.encode
        with_backend_ref
      ∷ []

  abbrev pub configuration : Configuration
  configuration = record {
    Self = BackendTunnel;
    fields = backend_tunnel_fields;
    empty = backend_tunnel;
    builders = builders;
  }

  pub configuration-IsSound : IsSound configuration
  configuration-IsSound = record {
    unset = refl;
    faithful = value_IsFaithful 0 (λ b. refl) (λ a b. refl) ▸ tt;
  }
