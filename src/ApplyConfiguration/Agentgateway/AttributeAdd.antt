-- ===== src/ApplyConfiguration/Agentgateway/AttributeAdd.antt =====
-- mycelium/internal/applyconfiguration/v1alpha1/agentgateway/attributeadd.go
use agentic_platform.Prelude.{List, Option, String, [], none, refl, some, ◌∷◌}
use agentic_platform.ApplyConfiguration.Json.{Fields, Json, object_of, pointer_field, text}
use agentic_platform.ApplyConfiguration.Foreign.{Foreign}
use agentic_platform.ApplyConfiguration.Builder.{Builder, Configuration, IsSound, ◌▸◌}
use agentic_platform.ApplyConfiguration.Builder.Kinds.{value_builder, value_IsFaithful}

module _ (x : Foreign) where
  pub record AttributeAdd : Type 0 where
    pub name : Option String
    pub expression : Option x.cel_expression.Carrier

  abbrev pub attribute_add : AttributeAdd
  attribute_add = record { name = none; expression = none }

  abbrev pub with_name : String → AttributeAdd → AttributeAdd
  with_name v b = record b { name = some v }

  abbrev pub with_expression : x.cel_expression.Carrier → AttributeAdd → AttributeAdd
  with_expression v b = record b { expression = some v }

  abbrev pub attribute_add_fields : AttributeAdd → Fields
  attribute_add_fields b =
      ("name", pointer_field text b.name)
      ∷ ("expression", pointer_field x.cel_expression.encode b.expression)
      ∷ []

  abbrev pub encode_attribute_add : AttributeAdd → Json
  encode_attribute_add b = object_of (attribute_add_fields b)

  abbrev pub builders : List (Builder attribute_add_fields)
  builders =
      value_builder attribute_add_fields "name" text with_name
      ∷ value_builder attribute_add_fields "expression" x.cel_expression.encode with_expression
      ∷ []

  abbrev pub configuration : Configuration
  configuration = record {
    Self = AttributeAdd;
    fields = attribute_add_fields;
    empty = attribute_add;
    builders = builders;
  }

  pub configuration-IsSound : IsSound configuration
  configuration-IsSound = record {
    unset = refl;
    faithful =
        value_IsFaithful 0 (λ b. refl) (λ a b. refl)
        ▸ value_IsFaithful 1 (λ b. refl) (λ a b. refl)
        ▸ tt;
  }
