-- ===== src/ApplyConfiguration/Agentgateway/FieldTransformation.antt =====
-- mycelium/internal/applyconfiguration/v1alpha1/agentgateway/fieldtransformation.go
use agentic_platform.Prelude.{List, Option, String, [], none, refl, some, ◌∷◌}
use agentic_platform.ApplyConfiguration.Json.{Fields, Json, object_of, pointer_field, text}
use agentic_platform.ApplyConfiguration.Foreign.{Foreign}
use agentic_platform.ApplyConfiguration.Builder.{Builder, Configuration, IsSound, ◌▸◌}
use agentic_platform.ApplyConfiguration.Builder.Kinds.{value_builder, value_IsFaithful}

module _ (x : Foreign) where
  pub record FieldTransformation : Type 0 where
    pub field : Option String
    pub expression : Option x.cel_expression.Carrier

  abbrev pub field_transformation : FieldTransformation
  field_transformation = record { field = none; expression = none }

  abbrev pub with_field : String → FieldTransformation → FieldTransformation
  with_field v b = record b { field = some v }

  abbrev pub with_expression : x.cel_expression.Carrier → FieldTransformation → FieldTransformation
  with_expression v b = record b { expression = some v }

  abbrev pub field_transformation_fields : FieldTransformation → Fields
  field_transformation_fields b =
      ("field", pointer_field text b.field)
      ∷ ("expression", pointer_field x.cel_expression.encode b.expression)
      ∷ []

  abbrev pub encode_field_transformation : FieldTransformation → Json
  encode_field_transformation b = object_of (field_transformation_fields b)

  abbrev pub builders : List (Builder field_transformation_fields)
  builders =
      value_builder field_transformation_fields "field" text with_field
      ∷ value_builder field_transformation_fields "expression" x.cel_expression.encode
          with_expression
      ∷ []

  abbrev pub configuration : Configuration
  configuration = record {
    Self = FieldTransformation;
    fields = field_transformation_fields;
    empty = field_transformation;
    builders = builders;
  }

  pub configuration-IsSound : IsSound configuration
  configuration-IsSound = record {
    unset = refl;
    faithful =
        value_IsFaithful 0 (λ b. refl) (λ a b. refl)
        ▸ value_IsFaithful 1 (λ b. refl) (λ a b. refl)
        ▸ tt;
  }
