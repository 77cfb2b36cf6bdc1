-- ===== src/ApplyConfiguration/Agentgateway/AccessLog.antt =====
-- mycelium/internal/applyconfiguration/v1alpha1/agentgateway/accesslog.go
use agentic_platform.Prelude.{List, Option, [], none, refl, some, ◌∷◌}
use agentic_platform.ApplyConfiguration.Json.{Fields, Json, object_of, pointer_field}
use agentic_platform.ApplyConfiguration.Foreign.{Foreign}
use agentic_platform.ApplyConfiguration.Builder.{Builder, Configuration, IsSound, ◌▸◌}
use agentic_platform.ApplyConfiguration.Builder.Kinds.{
  pointer_builder, pointer_IsFaithful, value_builder, value_IsFaithful,
}
use agentic_platform.ApplyConfiguration.Agentgateway.LogTracingAttributes.{
  LogTracingAttributes, encode_log_tracing_attributes,
}
use agentic_platform.ApplyConfiguration.Agentgateway.OtlpAccessLog.{
  OtlpAccessLog, encode_otlp_access_log,
}

module _ (x : Foreign) where
  pub record AccessLog : Type 0 where
    pub filter : Option x.cel_expression.Carrier
    pub attributes : Option (LogTracingAttributes x)
    pub otlp : Option (OtlpAccessLog x)

  abbrev pub access_log : AccessLog
  access_log = record { filter = none; attributes = none; otlp = none }

  abbrev pub with_filter : x.cel_expression.Carrier → AccessLog → AccessLog
  with_filter v b = record b { filter = some v }

  abbrev pub with_attributes : Option (LogTracingAttributes x) → AccessLog → AccessLog
  with_attributes v b = record b { attributes = v }

  abbrev pub with_otlp : Option (OtlpAccessLog x) → AccessLog → AccessLog
  with_otlp v b = record b { otlp = v }

  abbrev pub access_log_fields : AccessLog → Fields
  access_log_fields b =
      ("filter", pointer_field x.cel_expression.encode b.filter)
      ∷ ("attributes", pointer_field (encode_log_tracing_attributes x) b.attributes)
      ∷ ("otlp", pointer_field (encode_otlp_access_log x) b.otlp)
      ∷ []

  abbrev pub encode_access_log : AccessLog → Json
  encode_access_log b = object_of (access_log_fields b)

  abbrev pub builders : List (Builder access_log_fields)
  builders =
      value_builder access_log_fields "filter" x.cel_expression.encode with_filter
      ∷ pointer_builder access_log_fields "attributes" (encode_log_tracing_attributes x)
          with_attributes
      ∷ pointer_builder access_log_fields "otlp" (encode_otlp_access_log x) with_otlp
      ∷ []

  abbrev pub configuration : Configuration
  configuration = record {
    Self = AccessLog;
    fields = access_log_fields;
    empty = access_log;
    builders = builders;
  }

  pub configuration-IsSound : IsSound configuration
  configuration-IsSound = record {
    unset = refl;
    faithful =
        value_IsFaithful 0 (λ b. refl) (λ a b. refl)
        ▸ pointer_IsFaithful 1 (λ b. refl) (λ a b. refl)
        ▸ pointer_IsFaithful 2 (λ b. refl) (λ a b. refl)
        ▸ tt;
  }
