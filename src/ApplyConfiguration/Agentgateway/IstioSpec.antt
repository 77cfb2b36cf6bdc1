-- ===== src/ApplyConfiguration/Agentgateway/IstioSpec.antt =====
-- mycelium/internal/applyconfiguration/v1alpha1/agentgateway/istiospec.go
use agentic_platform.Prelude.{List, Option, String, [], none, refl, some, ◌∷◌}
use agentic_platform.ApplyConfiguration.Json.{Fields, Json, object_of, pointer_field, text}
use agentic_platform.ApplyConfiguration.Foreign.{Foreign}
use agentic_platform.ApplyConfiguration.Builder.{Builder, Configuration, IsSound, ◌▸◌}
use agentic_platform.ApplyConfiguration.Builder.Kinds.{value_builder, value_IsFaithful}

module _ (x : Foreign) where
  pub record IstioSpec : Type 0 where
    pub ca_address : Option String
    pub trust_domain : Option String

  abbrev pub istio_spec : IstioSpec
  istio_spec = record { ca_address = none; trust_domain = none }

  abbrev pub with_ca_address : String → IstioSpec → IstioSpec
  with_ca_address v b = record b { ca_address = some v }

  abbrev pub with_trust_domain : String → IstioSpec → IstioSpec
  with_trust_domain v b = record b { trust_domain = some v }

  abbrev pub istio_spec_fields : IstioSpec → Fields
  istio_spec_fields b =
      ("caAddress", pointer_field text b.ca_address)
      ∷ ("trustDomain", pointer_field text b.trust_domain)
      ∷ []

  abbrev pub encode_istio_spec : IstioSpec → Json
  encode_istio_spec b = object_of (istio_spec_fields b)

  abbrev pub builders : List (Builder istio_spec_fields)
  builders =
      value_builder istio_spec_fields "caAddress" text with_ca_address
      ∷ value_builder istio_spec_fields "trustDomain" text with_trust_domain
      ∷ []

  abbrev pub configuration : Configuration
  configuration = record {
    Self = IstioSpec;
    fields = istio_spec_fields;
    empty = istio_spec;
    builders = builders;
  }

  pub configuration-IsSound : IsSound configuration
  configuration-IsSound = record {
    unset = refl;
    faithful =
        value_IsFaithful 0 (λ b. refl) (λ a b. refl)
        ▸ value_IsFaithful 1 (λ b. refl) (λ a b. refl)
        ▸ tt;
  }
