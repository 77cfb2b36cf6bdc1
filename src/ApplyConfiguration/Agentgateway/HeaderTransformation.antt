-- ===== src/ApplyConfiguration/Agentgateway/HeaderTransformation.antt =====
-- mycelium/internal/applyconfiguration/v1alpha1/agentgateway/headertransformation.go
use agentic_platform.Prelude.{List, Option, [], none, refl, some, ◌∷◌}
use agentic_platform.ApplyConfiguration.Json.{Fields, Json, object_of, pointer_field}
use agentic_platform.ApplyConfiguration.Foreign.{Foreign}
use agentic_platform.ApplyConfiguration.Builder.{Builder, Configuration, IsSound, ◌▸◌}
use agentic_platform.ApplyConfiguration.Builder.Kinds.{value_builder, value_IsFaithful}

module _ (x : Foreign) where
  pub record HeaderTransformation : Type 0 where
    pub name : Option x.header_name.Carrier
    pub value : Option x.cel_expression.Carrier

  abbrev pub header_transformation : HeaderTransformation
  header_transformation = record { name = none; value = none }

  abbrev pub with_name : x.header_name.Carrier → HeaderTransformation → HeaderTransformation
  with_name v b = record b { name = some v }

  abbrev pub with_value : x.cel_expression.Carrier → HeaderTransformation → HeaderTransformation
  with_value v b = record b { value = some v }

  abbrev pub header_transformation_fields : HeaderTransformation → Fields
  header_transformation_fields b =
      ("name", pointer_field x.header_name.encode b.name)
      ∷ ("value", pointer_field x.cel_expression.encode b.value)
      ∷ []

  abbrev pub encode_header_transformation : HeaderTransformation → Json
  encode_header_transformation b = object_of (header_transformation_fields b)

  abbrev pub builders : List (Builder header_transformation_fields)
  builders =
      value_builder header_transformation_fields "name" x.header_name.encode with_name
      ∷ value_builder header_transformation_fields "value" x.cel_expression.encode with_value
      ∷ []

  abbrev pub configuration : Configuration
  configuration = record {
    Self = HeaderTransformation;
    fields = header_transformation_fields;
    empty = header_transformation;
    builders = builders;
  }

  pub configuration-IsSound : IsSound configuration
  configuration-IsSound = record {
    unset = refl;
    faithful =
        value_IsFaithful 0 (λ b. refl) (λ a b. refl)
        ▸ value_IsFaithful 1 (λ b. refl) (λ a b. refl)
        ▸ tt;
  }
