-- ===== src/ApplyConfiguration/Agentgateway/Transformation.antt =====
-- mycelium/internal/applyconfiguration/v1alpha1/agentgateway/transformation.go
use agentic_platform.Prelude.{List, Option, [], none, refl, ◌∷◌}
use agentic_platform.ApplyConfiguration.Json.{Fields, Json, object_of, pointer_field}
use agentic_platform.ApplyConfiguration.Foreign.{Foreign}
use agentic_platform.ApplyConfiguration.Builder.{Builder, Configuration, IsSound, ◌▸◌}
use agentic_platform.ApplyConfiguration.Builder.Kinds.{pointer_builder, pointer_IsFaithful}
use agentic_platform.ApplyConfiguration.Agentgateway.Transform.{Transform, encode_transform}

module _ (x : Foreign) where
  pub record Transformation : Type 0 where
    pub request : Option (Transform x)
    pub response : Option (Transform x)

  abbrev pub transformation : Transformation
  transformation = record { request = none; response = none }

  abbrev pub with_request : Option (Transform x) → Transformation → Transformation
  with_request v b = record b { request = v }

  abbrev pub with_response : Option (Transform x) → Transformation → Transformation
  with_response v b = record b { response = v }

  abbrev pub transformation_fields : Transformation → Fields
  transformation_fields b =
      ("request", pointer_field (encode_transform x) b.request)
      ∷ ("response", pointer_field (encode_transform x) b.response)
      ∷ []

  abbrev pub encode_transformation : Transformation → Json
  encode_transformation b = object_of (transformation_fields b)

  abbrev pub builders : List (Builder transformation_fields)
  builders =
      pointer_builder transformation_fields "request" (encode_transform x) with_request
      ∷ pointer_builder transformation_fields "response" (encode_transform x) with_response
      ∷ []

  abbrev pub configuration : Configuration
  configuration = record {
    Self = Transformation;
    fields = transformation_fields;
    empty = transformation;
    builders = builders;
  }

  pub configuration-IsSound : IsSound configuration
  configuration-IsSound = record {
    unset = refl;
    faithful =
        pointer_IsFaithful 0 (λ b. refl) (λ a b. refl)
        ▸ pointer_IsFaithful 1 (λ b. refl) (λ a b. refl)
        ▸ tt;
  }
