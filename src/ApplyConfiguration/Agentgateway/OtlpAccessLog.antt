-- ===== src/ApplyConfiguration/Agentgateway/OtlpAccessLog.antt =====
-- mycelium/internal/applyconfiguration/v1alpha1/agentgateway/otlpaccesslog.go
use agentic_platform.Prelude.{List, Option, String, [], none, refl, some, ◌∷◌}
use agentic_platform.ApplyConfiguration.Json.{Fields, Json, object_of, pointer_field, text}
use agentic_platform.ApplyConfiguration.Foreign.{Foreign}
use agentic_platform.ApplyConfiguration.Builder.{Builder, Configuration, IsSound, ◌▸◌}
use agentic_platform.ApplyConfiguration.Builder.Kinds.{value_builder, value_IsFaithful}

module _ (x : Foreign) where
  pub record OtlpAccessLog : Type 0 where
    pub backend_ref : Option x.backend_object_reference.Carrier
    pub protocol : Option x.otlp_protocol.Carrier
    pub path : Option String

  abbrev pub otlp_access_log : OtlpAccessLog
  otlp_access_log = record { backend_ref = none; protocol = none; path = none }

  abbrev pub with_backend_ref : x.backend_object_reference.Carrier → OtlpAccessLog → OtlpAccessLog
  with_backend_ref v b = record b { backend_ref = some v }

  abbrev pub with_protocol : x.otlp_protocol.Carrier → OtlpAccessLog → OtlpAccessLog
  with_protocol v b = record b { protocol = some v }

  abbrev pub with_path : String → OtlpAccessLog → OtlpAccessLog
  with_path v b = record b { path = some v }

  abbrev pub otlp_access_log_fields : OtlpAccessLog → Fields
  otlp_access_log_fields b =
      ("backendRef", pointer_field x.backend_object_reference.encode b.backend_ref)
      ∷ ("protocol", pointer_field x.otlp_protocol.encode b.protocol)
      ∷ ("path", pointer_field text b.path)
      ∷ []

  abbrev pub encode_otlp_access_log : OtlpAccessLog → Json
  encode_otlp_access_log b = object_of (otlp_access_log_fields b)

  abbrev pub builders : List (Builder otlp_access_log_fields)
  builders =
      value_builder otlp_access_log_fields "backendRef" x.backend_object_reference.encode
        with_backend_ref
      ∷ value_builder otlp_access_log_fields "protocol" x.otlp_protocol.encode with_protocol
      ∷ value_builder otlp_access_log_fields "path" text with_path
      ∷ []

  abbrev pub configuration : Configuration
  configuration = record {
    Self = OtlpAccessLog;
    fields = otlp_access_log_fields;
    empty = otlp_access_log;
    builders = builders;
  }

  pub configuration-IsSound : IsSound configuration
  configuration-IsSound = record {
    unset = refl;
    faithful =
        value_IsFaithful 0 (λ b. refl) (λ a b. refl)
        ▸ value_IsFaithful 1 (λ b. refl) (λ a b. refl)
        ▸ value_IsFaithful 2 (λ b. refl) (λ a b. refl)
        ▸ tt;
  }
