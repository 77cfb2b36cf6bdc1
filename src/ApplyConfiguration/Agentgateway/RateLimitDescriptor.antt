-- ===== src/ApplyConfiguration/Agentgateway/RateLimitDescriptor.antt =====
-- mycelium/internal/applyconfiguration/v1alpha1/agentgateway/ratelimitdescriptor.go
use agentic_platform.Prelude.{List, Option, [], none, refl, some, ◌∷◌}
use agentic_platform.ApplyConfiguration.{Outcome, map_outcome}
use agentic_platform.ApplyConfiguration.Appends.{append_pointers}
use agentic_platform.ApplyConfiguration.Json.{Fields, Json, object_of, pointer_field, slice_field}
use agentic_platform.ApplyConfiguration.Foreign.{Foreign}
use agentic_platform.ApplyConfiguration.Builder.{Builder, Configuration, IsSound, ◌▸◌}
use agentic_platform.ApplyConfiguration.Builder.Kinds.{
  pointers_builder, pointers_IsFaithful, value_builder, value_IsFaithful,
}
use agentic_platform.ApplyConfiguration.Agentgateway.RateLimitDescriptorEntry.{
  RateLimitDescriptorEntry, encode_rate_limit_descriptor_entry,
}

module _ (x : Foreign) where
  pub record RateLimitDescriptor : Type 0 where
    pub entries : List (RateLimitDescriptorEntry x)
    pub unit : Option x.rate_limit_unit.Carrier

  abbrev pub rate_limit_descriptor : RateLimitDescriptor
  rate_limit_descriptor = record { entries = []; unit = none }

  abbrev pub with_entries :
      List (Option (RateLimitDescriptorEntry x)) → RateLimitDescriptor → Outcome RateLimitDescriptor
  with_entries values b =
      map_outcome (λ xs. record b { entries = xs }) (append_pointers "WithEntries" values b.entries)

  abbrev pub with_unit : x.rate_limit_unit.Carrier → RateLimitDescriptor → RateLimitDescriptor
  with_unit v b = record b { unit = some v }

  abbrev pub rate_limit_descriptor_fields : RateLimitDescriptor → Fields
  rate_limit_descriptor_fields b =
      ("entries", slice_field (encode_rate_limit_descriptor_entry x) b.entries)
      ∷ ("unit", pointer_field x.rate_limit_unit.encode b.unit)
      ∷ []

  abbrev pub encode_rate_limit_descriptor : RateLimitDescriptor → Json
  encode_rate_limit_descriptor b = object_of (rate_limit_descriptor_fields b)

  abbrev pub builders : List (Builder rate_limit_descriptor_fields)
  builders =
      pointers_builder rate_limit_descriptor_fields "entries" (encode_rate_limit_descriptor_entry x)
        "WithEntries" with_entries
      ∷ value_builder rate_limit_descriptor_fields "unit" x.rate_limit_unit.encode with_unit
      ∷ []

  abbrev pub configuration : Configuration
  configuration = record {
    Self = RateLimitDescriptor;
    fields = rate_limit_descriptor_fields;
    empty = rate_limit_descriptor;
    builders = builders;
  }

  pub configuration-IsSound : IsSound configuration
  configuration-IsSound = record {
    unset = refl;
    faithful =
        pointers_IsFaithful 0 (λ b. refl) (λ b. b.entries) (λ xs b. record b { entries = xs })
          (λ xs b. refl) (λ b. refl) "WithEntries" (λ a b. refl)
        ▸ value_IsFaithful 1 (λ b. refl) (λ a b. refl)
        ▸ tt;
  }
