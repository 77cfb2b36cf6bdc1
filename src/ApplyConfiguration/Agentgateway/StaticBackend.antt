-- ===== src/ApplyConfiguration/Agentgateway/StaticBackend.antt =====
-- mycelium/internal/applyconfiguration/v1alpha1/agentgateway/staticbackend.go
use agentic_platform.Prelude.{List, Option, String, [], none, refl, some, ◌∷◌}
use agentic_platform.Prelude.Int.{ℤ}
use agentic_platform.ApplyConfiguration.Json.{Fields, Json, number, object_of, pointer_field, text}
use agentic_platform.ApplyConfiguration.Foreign.{Foreign}
use agentic_platform.ApplyConfiguration.Builder.{Builder, Configuration, IsSound, ◌▸◌}
use agentic_platform.ApplyConfiguration.Builder.Kinds.{value_builder, value_IsFaithful}

module _ (x : Foreign) where
  pub record StaticBackend : Type 0 where
    pub host : Option String
    pub port : Option ℤ
    pub unix_path : Option String

  abbrev pub static_backend : StaticBackend
  static_backend = record { host = none; port = none; unix_path = none }

  abbrev pub with_host : String → StaticBackend → StaticBackend
  with_host v b = record b { host = some v }

  abbrev pub with_port : ℤ → StaticBackend → StaticBackend
  with_port v b = record b { port = some v }

  abbrev pub with_unix_path : String → StaticBackend → StaticBackend
  with_unix_path v b = record b { unix_path = some v }

  abbrev pub static_backend_fields : StaticBackend → Fields
  static_backend_fields b =
      ("host", pointer_field text b.host)
      ∷ ("port", pointer_field number b.port)
      ∷ ("unixPath", pointer_field text b.unix_path)
      ∷ []

  abbrev pub encode_static_backend : StaticBackend → Json
  encode_static_backend b = object_of (static_backend_fields b)

  abbrev pub builders : List (Builder static_backend_fields)
  builders =
      value_builder static_backend_fields "host" text with_host
      ∷ value_builder static_backend_fields "port" number with_port
      ∷ value_builder static_backend_fields "unixPath" text with_unix_path
      ∷ []

  abbrev pub configuration : Configuration
  configuration = record {
    Self = StaticBackend;
    fields = static_backend_fields;
    empty = static_backend;
    builders = builders;
  }

  pub configuration-IsSound : IsSound configuration
  configuration-IsSound = record {
    unset = refl;
    faithful =
        value_IsFaithful 0 (λ b. refl) (λ a b. refl)
        ▸ value_IsFaithful 1 (λ b. refl) (λ a b. refl)
        ▸ value_IsFaithful 2 (λ b. refl) (λ a b. refl)
        ▸ tt;
  }
