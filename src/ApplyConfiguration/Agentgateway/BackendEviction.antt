-- ===== src/ApplyConfiguration/Agentgateway/BackendEviction.antt =====
-- mycelium/internal/applyconfiguration/v1alpha1/agentgateway/backendeviction.go
use agentic_platform.Prelude.{List, Option, [], none, refl, some, ◌∷◌}
use agentic_platform.Prelude.Int.{ℤ}
use agentic_platform.ApplyConfiguration.Json.{Fields, Json, number, object_of, pointer_field}
use agentic_platform.ApplyConfiguration.Foreign.{Foreign}
use agentic_platform.ApplyConfiguration.Builder.{Builder, Configuration, IsSound, ◌▸◌}
use agentic_platform.ApplyConfiguration.Builder.Kinds.{value_builder, value_IsFaithful}

module _ (x : Foreign) where
  pub record BackendEviction : Type 0 where
    pub duration : Option x.duration.Carrier
    pub restore_health : Option ℤ
    pub consecutive_failures : Option ℤ
    pub health_threshold : Option ℤ

  abbrev pub backend_eviction : BackendEviction
  backend_eviction = record {
    duration = none;
    restore_health = none;
    consecutive_failures = none;
    health_threshold = none;
  }

  abbrev pub with_duration : x.duration.Carrier → BackendEviction → BackendEviction
  with_duration v b = record b { duration = some v }

  abbrev pub with_restore_health : ℤ → BackendEviction → BackendEviction
  with_restore_health v b = record b { restore_health = some v }

  abbrev pub with_consecutive_failures : ℤ → BackendEviction → BackendEviction
  with_consecutive_failures v b = record b { consecutive_failures = some v }

  abbrev pub with_health_threshold : ℤ → BackendEviction → BackendEviction
  with_health_threshold v b = record b { health_threshold = some v }

  abbrev pub backend_eviction_fields : BackendEviction → Fields
  backend_eviction_fields b =
      ("duration", pointer_field x.duration.encode b.duration)
      ∷ ("restoreHealth", pointer_field number b.restore_health)
      ∷ ("consecutiveFailures", pointer_field number b.consecutive_failures)
      ∷ ("healthThreshold", pointer_field number b.health_threshold)
      ∷ []

  abbrev pub encode_backend_eviction : BackendEviction → Json
  encode_backend_eviction b = object_of (backend_eviction_fields b)

  abbrev pub builders : List (Builder backend_eviction_fields)
  builders =
      value_builder backend_eviction_fields "duration" x.duration.encode with_duration
      ∷ value_builder backend_eviction_fields "restoreHealth" number with_restore_health
      ∷ value_builder backend_eviction_fields "consecutiveFailures" number with_consecutive_failures
      ∷ value_builder backend_eviction_fields "healthThreshold" number with_health_threshold
      ∷ []

  abbrev pub configuration : Configuration
  configuration = record {
    Self = BackendEviction;
    fields = backend_eviction_fields;
    empty = backend_eviction;
    builders = builders;
  }

  pub configuration-IsSound : IsSound configuration
  configuration-IsSound = record {
    unset = refl;
    faithful =
        value_IsFaithful 0 (λ b. refl) (λ a b. refl)
        ▸ value_IsFaithful 1 (λ b. refl) (λ a b. refl)
        ▸ value_IsFaithful 2 (λ b. refl) (λ a b. refl)
        ▸ value_IsFaithful 3 (λ b. refl) (λ a b. refl)
        ▸ tt;
  }
