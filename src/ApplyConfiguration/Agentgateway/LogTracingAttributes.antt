-- ===== src/ApplyConfiguration/Agentgateway/LogTracingAttributes.antt =====
-- mycelium/internal/applyconfiguration/v1alpha1/agentgateway/logtracingattributes.go
use agentic_platform.Prelude.{List, Option, String, [], refl, ◌∷◌}
use agentic_platform.ApplyConfiguration.{Outcome, map_outcome}
use agentic_platform.ApplyConfiguration.Appends.{append_pointers, append_values}
use agentic_platform.ApplyConfiguration.Json.{Fields, Json, object_of, slice_field, text}
use agentic_platform.ApplyConfiguration.Foreign.{Foreign}
use agentic_platform.ApplyConfiguration.Builder.{Builder, Configuration, IsSound, ◌▸◌}
use agentic_platform.ApplyConfiguration.Builder.Kinds.{
  pointers_builder, pointers_IsFaithful, values_builder, values_IsFaithful,
}
use agentic_platform.ApplyConfiguration.Agentgateway.AttributeAdd.{
  AttributeAdd, encode_attribute_add,
}

module _ (x : Foreign) where
  pub record LogTracingAttributes : Type 0 where
    pub remove : List String
    pub add : List (AttributeAdd x)

  abbrev pub log_tracing_attributes : LogTracingAttributes
  log_tracing_attributes = record { remove = []; add = [] }

  abbrev pub with_remove : List String → LogTracingAttributes → LogTracingAttributes
  with_remove values b = record b { remove = append_values values b.remove }

  abbrev pub with_add :
      List (Option (AttributeAdd x)) → LogTracingAttributes → Outcome LogTracingAttributes
  with_add values b =
      map_outcome (λ xs. record b { add = xs }) (append_pointers "WithAdd" values b.add)

  abbrev pub log_tracing_attributes_fields : LogTracingAttributes → Fields
  log_tracing_attributes_fields b =
      ("remove", slice_field text b.remove)
      ∷ ("add", slice_field (encode_attribute_add x) b.add)
      ∷ []

  abbrev pub encode_log_tracing_attributes : LogTracingAttributes → Json
  encode_log_tracing_attributes b = object_of (log_tracing_attributes_fields b)

  abbrev pub builders : List (Builder log_tracing_attributes_fields)
  builders =
      values_builder log_tracing_attributes_fields "remove" text with_remove
      ∷ pointers_builder log_tracing_attributes_fields "add" (encode_attribute_add x) "WithAdd"
          with_add
      ∷ []

  abbrev pub configuration : Configuration
  configuration = record {
    Self = LogTracingAttributes;
    fields = log_tracing_attributes_fields;
    empty = log_tracing_attributes;
    builders = builders;
  }

  pub configuration-IsSound : IsSound configuration
  configuration-IsSound = record {
    unset = refl;
    faithful =
        values_IsFaithful 0 (λ b. refl) (λ b. b.remove) (λ xs b. record b { remove = xs })
          (λ xs b. refl) (λ b. refl) (λ a b. refl)
        ▸ pointers_IsFaithful 1 (λ b. refl) (λ b. b.add) (λ xs b. record b { add = xs })
            (λ xs b. refl) (λ b. refl) "WithAdd" (λ a b. refl)
        ▸ tt;
  }
