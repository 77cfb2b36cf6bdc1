-- ===== src/ApplyConfiguration/Agentgateway/GcpAuth.antt =====
-- mycelium/internal/applyconfiguration/v1alpha1/agentgateway/gcpauth.go
use agentic_platform.Prelude.{List, Option, String, [], none, refl, some, ◌∷◌}
use agentic_platform.ApplyConfiguration.Json.{Fields, Json, object_of, pointer_field, text}
use agentic_platform.ApplyConfiguration.Foreign.{Foreign}
use agentic_platform.ApplyConfiguration.Builder.{Builder, Configuration, IsSound, ◌▸◌}
use agentic_platform.ApplyConfiguration.Builder.Kinds.{value_builder, value_IsFaithful}

module _ (x : Foreign) where
  pub record GcpAuth : Type 0 where
    pub type : Option x.gcp_auth_type.Carrier
    pub audience : Option String

  abbrev pub gcp_auth : GcpAuth
  gcp_auth = record { type = none; audience = none }

  abbrev pub with_type : x.gcp_auth_type.Carrier → GcpAuth → GcpAuth
  with_type v b = record b { type = some v }

  abbrev pub with_audience : String → GcpAuth → GcpAuth
  with_audience v b = record b { audience = some v }

  abbrev pub gcp_auth_fields : GcpAuth → Fields
  gcp_auth_fields b =
      ("type", pointer_field x.gcp_auth_type.encode b.type)
      ∷ ("audience", pointer_field text b.audience)
      ∷ []

  abbrev pub encode_gcp_auth : GcpAuth → Json
  encode_gcp_auth b = object_of (gcp_auth_fields b)

  abbrev pub builders : List (Builder gcp_auth_fields)
  builders =
      value_builder gcp_auth_fields "type" x.gcp_auth_type.encode with_type
      ∷ value_builder gcp_auth_fields "audience" text with_audience
      ∷ []

  abbrev pub configuration : Configuration
  configuration = record {
    Self = GcpAuth;
    fields = gcp_auth_fields;
    empty = gcp_auth;
    builders = builders;
  }

  pub configuration-IsSound : IsSound configuration
  configuration-IsSound = record {
    unset = refl;
    faithful =
        value_IsFaithful 0 (λ b. refl) (λ a b. refl)
        ▸ value_IsFaithful 1 (λ b. refl) (λ a b. refl)
        ▸ tt;
  }
