-- ===== src/ApplyConfiguration/Agentgateway/Keepalive.antt =====
-- mycelium/internal/applyconfiguration/v1alpha1/agentgateway/keepalive.go
use agentic_platform.Prelude.{List, Option, [], none, refl, some, ◌∷◌}
use agentic_platform.Prelude.Int.{ℤ}
use agentic_platform.ApplyConfiguration.Json.{Fields, Json, number, object_of, pointer_field}
use agentic_platform.ApplyConfiguration.Foreign.{Foreign}
use agentic_platform.ApplyConfiguration.Builder.{Builder, Configuration, IsSound, ◌▸◌}
use agentic_platform.ApplyConfiguration.Builder.Kinds.{value_builder, value_IsFaithful}

module _ (x : Foreign) where
  pub record Keepalive : Type 0 where
    pub retries : Option ℤ
    pub time : Option x.duration.Carrier
    pub interval : Option x.duration.Carrier

  abbrev pub keepalive : Keepalive
  keepalive = record { retries = none; time = none; interval = none }

  abbrev pub with_retries : ℤ → Keepalive → Keepalive
  with_retries v b = record b { retries = some v }

  abbrev pub with_time : x.duration.Carrier → Keepalive → Keepalive
  with_time v b = record b { time = some v }

  abbrev pub with_interval : x.duration.Carrier → Keepalive → Keepalive
  with_interval v b = record b { interval = some v }

  abbrev pub keepalive_fields : Keepalive → Fields
  keepalive_fields b =
      ("retries", pointer_field number b.retries)
      ∷ ("time", pointer_field x.duration.encode b.time)
      ∷ ("interval", pointer_field x.duration.encode b.interval)
      ∷ []

  abbrev pub encode_keepalive : Keepalive → Json
  encode_keepalive b = object_of (keepalive_fields b)

  abbrev pub builders : List (Builder keepalive_fields)
  builders =
      value_builder keepalive_fields "retries" number with_retries
      ∷ value_builder keepalive_fields "time" x.duration.encode with_time
      ∷ value_builder keepalive_fields "interval" x.duration.encode with_interval
      ∷ []

  abbrev pub configuration : Configuration
  configuration = record {
    Self = Keepalive;
    fields = keepalive_fields;
    empty = keepalive;
    builders = builders;
  }

  pub configuration-IsSound : IsSound configuration
  configuration-IsSound = record {
    unset = refl;
    faithful =
        value_IsFaithful 0 (λ b. refl) (λ a b. refl)
        ▸ value_IsFaithful 1 (λ b. refl) (λ a b. refl)
        ▸ value_IsFaithful 2 (λ b. refl) (λ a b. refl)
        ▸ tt;
  }
