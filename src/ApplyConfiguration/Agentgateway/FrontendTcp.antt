-- ===== src/ApplyConfiguration/Agentgateway/FrontendTcp.antt =====
-- mycelium/internal/applyconfiguration/v1alpha1/agentgateway/frontendtcp.go
use agentic_platform.Prelude.{List, Option, [], none, refl, ◌∷◌}
use agentic_platform.ApplyConfiguration.Json.{Fields, Json, object_of, pointer_field}
use agentic_platform.ApplyConfiguration.Foreign.{Foreign}
use agentic_platform.ApplyConfiguration.Builder.{Builder, Configuration, IsSound, ◌▸◌}
use agentic_platform.ApplyConfiguration.Builder.Kinds.{pointer_builder, pointer_IsFaithful}
use agentic_platform.ApplyConfiguration.Agentgateway.Keepalive.{Keepalive, encode_keepalive}

module _ (x : Foreign) where
  pub record FrontendTcp : Type 0 where
    pub keep_alive : Option (Keepalive x)

  abbrev pub frontend_tcp : FrontendTcp
  frontend_tcp = record { keep_alive = none }

  abbrev pub with_keep_alive : Option (Keepalive x) → FrontendTcp → FrontendTcp
  with_keep_alive v b = record b { keep_alive = v }

  abbrev pub frontend_tcp_fields : FrontendTcp → Fields
  frontend_tcp_fields b = ("keepalive", pointer_field (encode_keepalive x) b.keep_alive) ∷ []

  abbrev pub encode_frontend_tcp : FrontendTcp → Json
  encode_frontend_tcp b = object_of (frontend_tcp_fields b)

  abbrev pub builders : List (Builder frontend_tcp_fields)
  builders =
      pointer_builder frontend_tcp_fields "keepalive" (encode_keepalive x) with_keep_alive ∷ []

  abbrev pub configuration : Configuration
  configuration = record {
    Self = FrontendTcp;
    fields = frontend_tcp_fields;
    empty = frontend_tcp;
    builders = builders;
  }

  pub configuration-IsSound : IsSound configuration
  configuration-IsSound = record {
    unset = refl;
    faithful = pointer_IsFaithful 0 (λ b. refl) (λ a b. refl) ▸ tt;
  }
