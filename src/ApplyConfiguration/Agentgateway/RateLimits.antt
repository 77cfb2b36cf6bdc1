-- ===== src/ApplyConfiguration/Agentgateway/RateLimits.antt =====
-- mycelium/internal/applyconfiguration/v1alpha1/agentgateway/ratelimits.go
use agentic_platform.Prelude.{List, Option, [], none, refl, ◌∷◌}
use agentic_platform.ApplyConfiguration.{Outcome, map_outcome}
use agentic_platform.ApplyConfiguration.Appends.{append_pointers}
use agentic_platform.ApplyConfiguration.Json.{Fields, Json, object_of, pointer_field, slice_field}
use agentic_platform.ApplyConfiguration.Foreign.{Foreign}
use agentic_platform.ApplyConfiguration.Builder.{Builder, Configuration, IsSound, ◌▸◌}
use agentic_platform.ApplyConfiguration.Builder.Kinds.{
  pointer_builder, pointer_IsFaithful, pointers_builder, pointers_IsFaithful,
}
use agentic_platform.ApplyConfiguration.Agentgateway.GlobalRateLimit.{
  GlobalRateLimit, encode_global_rate_limit,
}
use agentic_platform.ApplyConfiguration.Agentgateway.LocalRateLimit.{
  LocalRateLimit, encode_local_rate_limit,
}

module _ (x : Foreign) where
  pub record RateLimits : Type 0 where
    pub local : List (LocalRateLimit x)
    pub global : Option (GlobalRateLimit x)

  abbrev pub rate_limits : RateLimits
  rate_limits = record { local = []; global = none }

  abbrev pub with_local : List (Option (LocalRateLimit x)) → RateLimits → Outcome RateLimits
  with_local values b =
      map_outcome (λ xs. record b { local = xs }) (append_pointers "WithLocal" values b.local)

  abbrev pub with_global : Option (GlobalRateLimit x) → RateLimits → RateLimits
  with_global v b = record b { global = v }

  abbrev pub rate_limits_fields : RateLimits → Fields
  rate_limits_fields b =
      ("local", slice_field (encode_local_rate_limit x) b.local)
      ∷ ("global", pointer_field (encode_global_rate_limit x) b.global)
      ∷ []

  abbrev pub encode_rate_limits : RateLimits → Json
  encode_rate_limits b = object_of (rate_limits_fields b)

  abbrev pub builders : List (Builder rate_limits_fields)
  builders =
      pointers_builder rate_limits_fields "local" (encode_local_rate_limit x) "WithLocal" with_local
      ∷ pointer_builder rate_limits_fields "global" (encode_global_rate_limit x) with_global
      ∷ []

  abbrev pub configuration : Configuration
  configuration = record {
    Self = RateLimits;
    fields = rate_limits_fields;
    empty = rate_limits;
    builders = builders;
  }

  pub configuration-IsSound : IsSound configuration
  configuration-IsSound = record {
    unset = refl;
    faithful =
        pointers_IsFaithful 0 (λ b. refl) (λ b. b.local) (λ xs b. record b { local = xs })
          (λ xs b. refl) (λ b. refl) "WithLocal" (λ a b. refl)
        ▸ pointer_IsFaithful 1 (λ b. refl) (λ a b. refl)
        ▸ tt;
  }
