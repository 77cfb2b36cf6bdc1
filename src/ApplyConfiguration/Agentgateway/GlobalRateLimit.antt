-- ===== src/ApplyConfiguration/Agentgateway/GlobalRateLimit.antt =====
-- mycelium/internal/applyconfiguration/v1alpha1/agentgateway/globalratelimit.go
use agentic_platform.Prelude.{List, Option, String, [], none, refl, some, ◌∷◌}
use agentic_platform.ApplyConfiguration.{Outcome, map_outcome}
use agentic_platform.ApplyConfiguration.Appends.{append_pointers}
use agentic_platform.ApplyConfiguration.Json.{
  Fields, Json, object_of, pointer_field, slice_field, text,
}
use agentic_platform.ApplyConfiguration.Foreign.{Foreign}
use agentic_platform.ApplyConfiguration.Builder.{Builder, Configuration, IsSound, ◌▸◌}
use agentic_platform.ApplyConfiguration.Builder.Kinds.{
  pointers_builder, pointers_IsFaithful, value_builder, value_IsFaithful,
}
use agentic_platform.ApplyConfiguration.Agentgateway.RateLimitDescriptor.{
  RateLimitDescriptor, encode_rate_limit_descriptor,
}

module _ (x : Foreign) where
  pub record GlobalRateLimit : Type 0 where
    pub backend_ref : Option x.backend_object_reference.Carrier
    pub failure_mode : Option x.failure_mode.Carrier
    pub domain : Option String
    pub descriptors : List (RateLimitDescriptor x)

  abbrev pub global_rate_limit : GlobalRateLimit
  global_rate_limit = record {
    backend_ref = none;
    failure_mode = none;
    domain = none;
    descriptors = [];
  }

  abbrev pub with_backend_ref :
      x.backend_object_reference.Carrier → GlobalRateLimit → GlobalRateLimit
  with_backend_ref v b = record b { backend_ref = some v }

  abbrev pub with_failure_mode : x.failure_mode.Carrier → GlobalRateLimit → GlobalRateLimit
  with_failure_mode v b = record b { failure_mode = some v }

  abbrev pub with_domain : String → GlobalRateLimit → GlobalRateLimit
  with_domain v b = record b { domain = some v }

  abbrev pub with_descriptors :
      List (Option (RateLimitDescriptor x)) → GlobalRateLimit → Outcome GlobalRateLimit
  with_descriptors values b =
      map_outcome (λ xs. record b { descriptors = xs })
        (append_pointers "WithDescriptors" values b.descriptors)

  abbrev pub global_rate_limit_fields : GlobalRateLimit → Fields
  global_rate_limit_fields b =
      ("backendRef", pointer_field x.backend_object_reference.encode b.backend_ref)
      ∷ ("failureMode", pointer_field x.failure_mode.encode b.failure_mode)
      ∷ ("domain", pointer_field text b.domain)
      ∷ ("descriptors", slice_field (encode_rate_limit_descriptor x) b.descriptors)
      ∷ []

  abbrev pub encode_global_rate_limit : GlobalRateLimit → Json
  encode_global_rate_limit b = object_of (global_rate_limit_fields b)

  abbrev pub builders : List (Builder global_rate_limit_fields)
  builders =
      value_builder global_rate_limit_fields "backendRef" x.backend_object_reference.encode
        with_backend_ref
      ∷ value_builder global_rate_limit_fields "failureMode" x.failure_mode.encode with_failure_mode
      ∷ value_builder global_rate_limit_fields "domain" text with_domain
      ∷ pointers_builder global_rate_limit_fields "descriptors" (encode_rate_limit_descriptor x)
          "WithDescriptors" with_descriptors
      ∷ []

  abbrev pub configuration : Configuration
  configuration = record {
    Self = GlobalRateLimit;
    fields = global_rate_limit_fields;
    empty = global_rate_limit;
    builders = builders;
  }

  pub configuration-IsSound : IsSound configuration
  configuration-IsSound = record {
    unset = refl;
    faithful =
        value_IsFaithful 0 (λ b. refl) (λ a b. refl)
        ▸ value_IsFaithful 1 (λ b. refl) (λ a b. refl)
        ▸ value_IsFaithful 2 (λ b. refl) (λ a b. refl)
        ▸ pointers_IsFaithful 3 (λ b. refl) (λ b. b.descriptors)
            (λ xs b. record b { descriptors = xs }) (λ xs b. refl) (λ b. refl) "WithDescriptors"
            (λ a b. refl)
        ▸ tt;
  }
