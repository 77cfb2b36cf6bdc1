-- ===== src/ApplyConfiguration/Agentgateway/Transform.antt =====
-- mycelium/internal/applyconfiguration/v1alpha1/agentgateway/transform.go
use agentic_platform.Prelude.{List, Option, String, [], none, refl, some, ◌∷◌}
use agentic_platform.ApplyConfiguration.{Outcome, map_outcome}
use agentic_platform.ApplyConfiguration.Maps.{GoMap, put_entries}
use agentic_platform.ApplyConfiguration.Appends.{append_pointers, append_values}
use agentic_platform.ApplyConfiguration.Json.{
  Fields, Json, map_field, object_of, pointer_field, slice_field,
}
use agentic_platform.ApplyConfiguration.Foreign.{Foreign}
use agentic_platform.ApplyConfiguration.Builder.{Builder, Configuration, IsSound, ◌▸◌}
use agentic_platform.ApplyConfiguration.Builder.Kinds.{
  entries_builder, entries_IsFaithful, pointers_builder, pointers_IsFaithful, value_builder,
  value_IsFaithful, values_builder, values_IsFaithful,
}
use agentic_platform.ApplyConfiguration.Agentgateway.HeaderTransformation.{
  HeaderTransformation, encode_header_transformation,
}

module _ (x : Foreign) where
  pub record Transform : Type 0 where
    pub set : List (HeaderTransformation x)
    pub add : List (HeaderTransformation x)
    pub remove : List x.header_name.Carrier
    pub body : Option x.cel_expression.Carrier
    pub metadata : GoMap x.cel_expression.Carrier

  abbrev pub transform : Transform
  transform = record { set = []; add = []; remove = []; body = none; metadata = none }

  abbrev pub with_set : List (Option (HeaderTransformation x)) → Transform → Outcome Transform
  with_set values b =
      map_outcome (λ xs. record b { set = xs }) (append_pointers "WithSet" values b.set)

  abbrev pub with_add : List (Option (HeaderTransformation x)) → Transform → Outcome Transform
  with_add values b =
      map_outcome (λ xs. record b { add = xs }) (append_pointers "WithAdd" values b.add)

  abbrev pub with_remove : List x.header_name.Carrier → Transform → Transform
  with_remove values b = record b { remove = append_values values b.remove }

  abbrev pub with_body : x.cel_expression.Carrier → Transform → Transform
  with_body v b = record b { body = some v }

  abbrev pub with_metadata :
      List (String × x.cel_expression.Carrier) → Transform → Outcome Transform
  with_metadata entries b =
      map_outcome (λ m. record b { metadata = m }) (put_entries entries b.metadata)

  abbrev pub transform_fields : Transform → Fields
  transform_fields b =
      ("set", slice_field (encode_header_transformation x) b.set)
      ∷ ("add", slice_field (encode_header_transformation x) b.add)
      ∷ ("remove", slice_field x.header_name.encode b.remove)
      ∷ ("body", pointer_field x.cel_expression.encode b.body)
      ∷ ("metadata", map_field x.cel_expression.encode b.metadata)
      ∷ []

  abbrev pub encode_transform : Transform → Json
  encode_transform b = object_of (transform_fields b)

  abbrev pub builders : List (Builder transform_fields)
  builders =
      pointers_builder transform_fields "set" (encode_header_transformation x) "WithSet" with_set
      ∷ pointers_builder transform_fields "add" (encode_header_transformation x) "WithAdd" with_add
      ∷ values_builder transform_fields "remove" x.header_name.encode with_remove
      ∷ value_builder transform_fields "body" x.cel_expression.encode with_body
      ∷ entries_builder transform_fields "metadata" x.cel_expression.encode with_metadata
      ∷ []

  abbrev pub configuration : Configuration
  configuration = record {
    Self = Transform;
    fields = transform_fields;
    empty = transform;
    builders = builders;
  }

  pub configuration-IsSound : IsSound configuration
  configuration-IsSound = record {
    unset = refl;
    faithful =
        pointers_IsFaithful 0 (λ b. refl) (λ b. b.set) (λ xs b. record b { set = xs })
          (λ xs b. refl) (λ b. refl) "WithSet" (λ a b. refl)
        ▸ pointers_IsFaithful 1 (λ b. refl) (λ b. b.add) (λ xs b. record b { add = xs })
            (λ xs b. refl) (λ b. refl) "WithAdd" (λ a b. refl)
        ▸ values_IsFaithful 2 (λ b. refl) (λ b. b.remove) (λ xs b. record b { remove = xs })
            (λ xs b. refl) (λ b. refl) (λ a b. refl)
        ▸ value_IsFaithful 3 (λ b. refl) (λ a b. refl)
        ▸ entries_IsFaithful 4 (λ b. refl) (λ b. b.metadata) (λ m b. record b { metadata = m })
            (λ m b. refl) (λ b. refl) (λ a b. refl)
        ▸ tt;
  }
