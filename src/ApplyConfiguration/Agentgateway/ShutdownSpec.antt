-- ===== src/ApplyConfiguration/Agentgateway/ShutdownSpec.antt =====
-- mycelium/internal/applyconfiguration/v1alpha1/agentgateway/shutdownspec.go
use agentic_platform.Prelude.{List, Option, [], none, refl, some, ◌∷◌}
use agentic_platform.Prelude.Int.{ℤ}
use agentic_platform.ApplyConfiguration.Json.{Fields, Json, number, object_of, pointer_field}
use agentic_platform.ApplyConfiguration.Foreign.{Foreign}
use agentic_platform.ApplyConfiguration.Builder.{Builder, Configuration, IsSound, ◌▸◌}
use agentic_platform.ApplyConfiguration.Builder.Kinds.{value_builder, value_IsFaithful}

module _ (x : Foreign) where
  pub record ShutdownSpec : Type 0 where
    pub min : Option ℤ
    pub max : Option ℤ

  abbrev pub shutdown_spec : ShutdownSpec
  shutdown_spec = record { min = none; max = none }

  abbrev pub with_min : ℤ → ShutdownSpec → ShutdownSpec
  with_min v b = record b { min = some v }

  abbrev pub with_max : ℤ → ShutdownSpec → ShutdownSpec
  with_max v b = record b { max = some v }

  abbrev pub shutdown_spec_fields : ShutdownSpec → Fields
  shutdown_spec_fields b =
      ("min", pointer_field number b.min) ∷ ("max", pointer_field number b.max) ∷ []

  abbrev pub encode_shutdown_spec : ShutdownSpec → Json
  encode_shutdown_spec b = object_of (shutdown_spec_fields b)

  abbrev pub builders : List (Builder shutdown_spec_fields)
  builders =
      value_builder shutdown_spec_fields "min" number with_min
      ∷ value_builder shutdown_spec_fields "max" number with_max
      ∷ []

  abbrev pub configuration : Configuration
  configuration = record {
    Self = ShutdownSpec;
    fields = shutdown_spec_fields;
    empty = shutdown_spec;
    builders = builders;
  }

  pub configuration-IsSound : IsSound configuration
  configuration-IsSound = record {
    unset = refl;
    faithful =
        value_IsFaithful 0 (λ b. refl) (λ a b. refl)
        ▸ value_IsFaithful 1 (λ b. refl) (λ a b. refl)
        ▸ tt;
  }
