-- ===== src/ApplyConfiguration/Agentgateway/Csrf.antt =====
-- mycelium/internal/applyconfiguration/v1alpha1/agentgateway/csrf.go
use agentic_platform.Prelude.{List, String, [], refl, ◌∷◌}
use agentic_platform.ApplyConfiguration.Appends.{append_values}
use agentic_platform.ApplyConfiguration.Json.{Fields, Json, object_of, slice_field, text}
use agentic_platform.ApplyConfiguration.Foreign.{Foreign}
use agentic_platform.ApplyConfiguration.Builder.{Builder, Configuration, IsSound, ◌▸◌}
use agentic_platform.ApplyConfiguration.Builder.Kinds.{values_builder, values_IsFaithful}

module _ (x : Foreign) where
  pub record Csrf : Type 0 where
    pub additional_origins : List String

  abbrev pub csrf : Csrf
  csrf = record { additional_origins = [] }

  abbrev pub with_additional_origins : List String → Csrf → Csrf
  with_additional_origins values b = record b {
    additional_origins = append_values values b.additional_origins;
  }

  abbrev pub csrf_fields : Csrf → Fields
  csrf_fields b = ("additionalOrigins", slice_field text b.additional_origins) ∷ []

  abbrev pub encode_csrf : Csrf → Json
  encode_csrf b = object_of (csrf_fields b)

  abbrev pub builders : List (Builder csrf_fields)
  builders = values_builder csrf_fields "additionalOrigins" text with_additional_origins ∷ []

  abbrev pub configuration : Configuration
  configuration = record { Self = Csrf; fields = csrf_fields; empty = csrf; builders = builders }

  pub configuration-IsSound : IsSound configuration
  configuration-IsSound = record {
    unset = refl;
    faithful =
        values_IsFaithful 0 (λ b. refl) (λ b. b.additional_origins)
          (λ xs b. record b { additional_origins = xs }) (λ xs b. refl) (λ b. refl) (λ a b. refl)
        ▸ tt;
  }
