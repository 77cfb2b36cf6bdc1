-- ===== src/ApplyConfiguration/Agentgateway/Health.antt =====
-- mycelium/internal/applyconfiguration/v1alpha1/agentgateway/health.go
use agentic_platform.Prelude.{List, Option, [], none, refl, some, ◌∷◌}
use agentic_platform.ApplyConfiguration.Json.{Fields, Json, object_of, pointer_field}
use agentic_platform.ApplyConfiguration.Foreign.{Foreign}
use agentic_platform.ApplyConfiguration.Builder.{Builder, Configuration, IsSound, ◌▸◌}
use agentic_platform.ApplyConfiguration.Builder.Kinds.{
  pointer_builder, pointer_IsFaithful, value_builder, value_IsFaithful,
}
use agentic_platform.ApplyConfiguration.Agentgateway.BackendEviction.{
  BackendEviction, encode_backend_eviction,
}

module _ (x : Foreign) where
  pub record Health : Type 0 where
    pub unhealthy_condition : Option x.cel_expression.Carrier
    pub eviction : Option (BackendEviction x)

  abbrev pub health : Health
  health = record { unhealthy_condition = none; eviction = none }

  abbrev pub with_unhealthy_condition : x.cel_expression.Carrier → Health → Health
  with_unhealthy_condition v b = record b { unhealthy_condition = some v }

  abbrev pub with_eviction : Option (BackendEviction x) → Health → Health
  with_eviction v b = record b { eviction = v }

  abbrev pub health_fields : Health → Fields
  health_fields b =
      ("unhealthyCondition", pointer_field x.cel_expression.encode b.unhealthy_condition)
      ∷ ("eviction", pointer_field (encode_backend_eviction x) b.eviction)
      ∷ []

  abbrev pub encode_health : Health → Json
  encode_health b = object_of (health_fields b)

  abbrev pub builders : List (Builder health_fields)
  builders =
      value_builder health_fields "unhealthyCondition" x.cel_expression.encode
        with_unhealthy_condition
      ∷ pointer_builder health_fields "eviction" (encode_backend_eviction x) with_eviction
      ∷ []

  abbrev pub configuration : Configuration
  configuration = record {
    Self = Health;
    fields = health_fields;
    empty = health;
    builders = builders;
  }

  pub configuration-IsSound : IsSound configuration
  configuration-IsSound = record {
    unset = refl;
    faithful =
        value_IsFaithful 0 (λ b. refl) (λ a b. refl)
        ▸ pointer_IsFaithful 1 (λ b. refl) (λ a b. refl)
        ▸ tt;
  }
