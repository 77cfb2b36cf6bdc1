-- ===== src/ApplyConfiguration/Agentgateway/RateLimitDescriptorEntry.antt =====
-- mycelium/internal/applyconfiguration/v1alpha1/agentgateway/ratelimitdescriptorentry.go
use agentic_platform.Prelude.{List, Option, String, [], none, refl, some, ◌∷◌}
use agentic_platform.ApplyConfiguration.Json.{Fields, Json, object_of, pointer_field, text}
use agentic_platform.ApplyConfiguration.Foreign.{Foreign}
use agentic_platform.ApplyConfiguration.Builder.{Builder, Configuration, IsSound, ◌▸◌}
use agentic_platform.ApplyConfiguration.Builder.Kinds.{value_builder, value_IsFaithful}

module _ (x : Foreign) where
  pub record RateLimitDescriptorEntry : Type 0 where
    pub name : Option String
    pub expression : Option x.cel_expression.Carrier

  abbrev pub rate_limit_descriptor_entry : RateLimitDescriptorEntry
  rate_limit_descriptor_entry = record { name = none; expression = none }

  abbrev pub with_name : String → RateLimitDescriptorEntry → RateLimitDescriptorEntry
  with_name v b = record b { name = some v }

  abbrev pub with_expression :
      x.cel_expression.Carrier → RateLimitDescriptorEntry → RateLimitDescriptorEntry
  with_expression v b = record b { expression = some v }

  abbrev pub rate_limit_descriptor_entry_fields : RateLimitDescriptorEntry → Fields
  rate_limit_descriptor_entry_fields b =
      ("name", pointer_field text b.name)
      ∷ ("expression", pointer_field x.cel_expression.encode b.expression)
      ∷ []

  abbrev pub encode_rate_limit_descriptor_entry : RateLimitDescriptorEntry → Json
  encode_rate_limit_descriptor_entry b = object_of (rate_limit_descriptor_entry_fields b)

  abbrev pub builders : List (Builder rate_limit_descriptor_entry_fields)
  builders =
      value_builder rate_limit_descriptor_entry_fields "name" text with_name
      ∷ value_builder rate_limit_descriptor_entry_fields "expression" x.cel_expression.encode
          with_expression
      ∷ []

  abbrev pub configuration : Configuration
  configuration = record {
    Self = RateLimitDescriptorEntry;
    fields = rate_limit_descriptor_entry_fields;
    empty = rate_limit_descriptor_entry;
    builders = builders;
  }

  pub configuration-IsSound : IsSound configuration
  configuration-IsSound = record {
    unset = refl;
    faithful =
        value_IsFaithful 0 (λ b. refl) (λ a b. refl)
        ▸ value_IsFaithful 1 (λ b. refl) (λ a b. refl)
        ▸ tt;
  }
