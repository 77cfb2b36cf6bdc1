-- ===== src/ApplyConfiguration/Agentgateway/FieldDefault.antt =====
-- mycelium/internal/applyconfiguration/v1alpha1/agentgateway/fielddefault.go
use agentic_platform.Prelude.{List, Option, String, [], none, refl, some, ◌∷◌}
use agentic_platform.ApplyConfiguration.Json.{Fields, Json, object_of, pointer_field, text}
use agentic_platform.ApplyConfiguration.Foreign.{Foreign}
use agentic_platform.ApplyConfiguration.Builder.{Builder, Configuration, IsSound, ◌▸◌}
use agentic_platform.ApplyConfiguration.Builder.Kinds.{value_builder, value_IsFaithful}

module _ (x : Foreign) where
  pub record FieldDefault : Type 0 where
    pub field : Option String
    pub value : Option x.json.Carrier

  abbrev pub field_default : FieldDefault
  field_default = record { field = none; value = none }

  abbrev pub with_field : String → FieldDefault → FieldDefault
  with_field v b = record b { field = some v }

  abbrev pub with_value : x.json.Carrier → FieldDefault → FieldDefault
  with_value v b = record b { value = some v }

  abbrev pub field_default_fields : FieldDefault → Fields
  field_default_fields b =
      ("field", pointer_field text b.field) ∷ ("value", pointer_field x.json.encode b.value) ∷ []

  abbrev pub encode_field_default : FieldDefault → Json
  encode_field_default b = object_of (field_default_fields b)

  abbrev pub builders : List (Builder field_default_fields)
  builders =
      value_builder field_default_fields "field" text with_field
      ∷ value_builder field_default_fields "value" x.json.encode with_value
      ∷ []

  abbrev pub configuration : Configuration
  configuration = record {
    Self = FieldDefault;
    fields = field_default_fields;
    empty = field_default;
    builders = builders;
  }

  pub configuration-IsSound : IsSound configuration
  configuration-IsSound = record {
    unset = refl;
    faithful =
        value_IsFaithful 0 (λ b. refl) (λ a b. refl)
        ▸ value_IsFaithful 1 (λ b. refl) (λ a b. refl)
        ▸ tt;
  }
