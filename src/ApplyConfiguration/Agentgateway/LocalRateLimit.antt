-- ===== src/ApplyConfiguration/Agentgateway/LocalRateLimit.antt =====
-- mycelium/internal/applyconfiguration/v1alpha1/agentgateway/localratelimit.go
use agentic_platform.Prelude.{List, Option, [], none, refl, some, ◌∷◌}
use agentic_platform.Prelude.Int.{ℤ}
use agentic_platform.ApplyConfiguration.Json.{Fields, Json, number, object_of, pointer_field}
use agentic_platform.ApplyConfiguration.Foreign.{Foreign}
use agentic_platform.ApplyConfiguration.Builder.{Builder, Configuration, IsSound, ◌▸◌}
use agentic_platform.ApplyConfiguration.Builder.Kinds.{value_builder, value_IsFaithful}

module _ (x : Foreign) where
  pub record LocalRateLimit : Type 0 where
    pub requests : Option ℤ
    pub tokens : Option ℤ
    pub unit : Option x.local_rate_limit_unit.Carrier
    pub burst : Option ℤ

  abbrev pub local_rate_limit : LocalRateLimit
  local_rate_limit = record { requests = none; tokens = none; unit = none; burst = none }

  abbrev pub with_requests : ℤ → LocalRateLimit → LocalRateLimit
  with_requests v b = record b { requests = some v }

  abbrev pub with_tokens : ℤ → LocalRateLimit → LocalRateLimit
  with_tokens v b = record b { tokens = some v }

  abbrev pub with_unit : x.local_rate_limit_unit.Carrier → LocalRateLimit → LocalRateLimit
  with_unit v b = record b { unit = some v }

  abbrev pub with_burst : ℤ → LocalRateLimit → LocalRateLimit
  with_burst v b = record b { burst = some v }

  abbrev pub local_rate_limit_fields : LocalRateLimit → Fields
  local_rate_limit_fields b =
      ("requests", pointer_field number b.requests)
      ∷ ("tokens", pointer_field number b.tokens)
      ∷ ("unit", pointer_field x.local_rate_limit_unit.encode b.unit)
      ∷ ("burst", pointer_field number b.burst)
      ∷ []

  abbrev pub encode_local_rate_limit : LocalRateLimit → Json
  encode_local_rate_limit b = object_of (local_rate_limit_fields b)

  abbrev pub builders : List (Builder local_rate_limit_fields)
  builders =
      value_builder local_rate_limit_fields "requests" number with_requests
      ∷ value_builder local_rate_limit_fields "tokens" number with_tokens
      ∷ value_builder local_rate_limit_fields "unit" x.local_rate_limit_unit.encode with_unit
      ∷ value_builder local_rate_limit_fields "burst" number with_burst
      ∷ []

  abbrev pub configuration : Configuration
  configuration = record {
    Self = LocalRateLimit;
    fields = local_rate_limit_fields;
    empty = local_rate_limit;
    builders = builders;
  }

  pub configuration-IsSound : IsSound configuration
  configuration-IsSound = record {
    unset = refl;
    faithful =
        value_IsFaithful 0 (λ b. refl) (λ a b. refl)
        ▸ value_IsFaithful 1 (λ b. refl) (λ a b. refl)
        ▸ value_IsFaithful 2 (λ b. refl) (λ a b. refl)
        ▸ value_IsFaithful 3 (λ b. refl) (λ a b. refl)
        ▸ tt;
  }
