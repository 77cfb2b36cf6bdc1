-- ===== src/ApplyConfiguration/Agentgateway/Timeouts.antt =====
-- mycelium/internal/applyconfiguration/v1alpha1/agentgateway/timeouts.go
use agentic_platform.Prelude.{List, Option, [], none, refl, some, ◌∷◌}
use agentic_platform.ApplyConfiguration.Json.{Fields, Json, object_of, pointer_field}
use agentic_platform.ApplyConfiguration.Foreign.{Foreign}
use agentic_platform.ApplyConfiguration.Builder.{Builder, Configuration, IsSound, ◌▸◌}
use agentic_platform.ApplyConfiguration.Builder.Kinds.{value_builder, value_IsFaithful}

module _ (x : Foreign) where
  pub record Timeouts : Type 0 where
    pub request : Option x.duration.Carrier

  abbrev pub timeouts : Timeouts
  timeouts = record { request = none }

  abbrev pub with_request : x.duration.Carrier → Timeouts → Timeouts
  with_request v b = record b { request = some v }

  abbrev pub timeouts_fields : Timeouts → Fields
  timeouts_fields b = ("request", pointer_field x.duration.encode b.request) ∷ []

  abbrev pub encode_timeouts : Timeouts → Json
  encode_timeouts b = object_of (timeouts_fields b)

  abbrev pub builders : List (Builder timeouts_fields)
  builders = value_builder timeouts_fields "request" x.duration.encode with_request ∷ []

  abbrev pub configuration : Configuration
  configuration = record {
    Self = Timeouts;
    fields = timeouts_fields;
    empty = timeouts;
    builders = builders;
  }

  pub configuration-IsSound : IsSound configuration
  configuration-IsSound = record {
    unset = refl;
    faithful = value_IsFaithful 0 (λ b. refl) (λ a b. refl) ▸ tt;
  }
