-- ===== src/ApplyConfiguration/Agentgateway/JwtProvider.antt =====
-- mycelium/internal/applyconfiguration/v1alpha1/agentgateway/jwtprovider.go
use agentic_platform.Prelude.{List, Option, String, [], none, refl, some, ◌∷◌}
use agentic_platform.ApplyConfiguration.Appends.{append_values}
use agentic_platform.ApplyConfiguration.Json.{
  Fields, Json, object_of, pointer_field, slice_field, text,
}
use agentic_platform.ApplyConfiguration.Foreign.{Foreign}
use agentic_platform.ApplyConfiguration.Builder.{Builder, Configuration, IsSound, ◌▸◌}
use agentic_platform.ApplyConfiguration.Builder.Kinds.{
  pointer_builder, pointer_IsFaithful, value_builder, value_IsFaithful, values_builder,
  values_IsFaithful,
}
use agentic_platform.ApplyConfiguration.Agentgateway.Jwks.{Jwks, encode_jwks}

module _ (x : Foreign) where
  pub record JwtProvider : Type 0 where
    pub issuer : Option String
    pub audiences : List String
    pub jwks : Option (Jwks x)

  abbrev pub jwt_provider : JwtProvider
  jwt_provider = record { issuer = none; audiences = []; jwks = none }

  abbrev pub with_issuer : String → JwtProvider → JwtProvider
  with_issuer v b = record b { issuer = some v }

  abbrev pub with_audiences : List String → JwtProvider → JwtProvider
  with_audiences values b = record b { audiences = append_values values b.audiences }

  abbrev pub with_jwks : Option (Jwks x) → JwtProvider → JwtProvider
  with_jwks v b = record b { jwks = v }

  abbrev pub jwt_provider_fields : JwtProvider → Fields
  jwt_provider_fields b =
      ("issuer", pointer_field text b.issuer)
      ∷ ("audiences", slice_field text b.audiences)
      ∷ ("jwks", pointer_field (encode_jwks x) b.jwks)
      ∷ []

  abbrev pub encode_jwt_provider : JwtProvider → Json
  encode_jwt_provider b = object_of (jwt_provider_fields b)

  abbrev pub builders : List (Builder jwt_provider_fields)
  builders =
      value_builder jwt_provider_fields "issuer" text with_issuer
      ∷ values_builder jwt_provider_fields "audiences" text with_audiences
      ∷ pointer_builder jwt_provider_fields "jwks" (encode_jwks x) with_jwks
      ∷ []

  abbrev pub configuration : Configuration
  configuration = record {
    Self = JwtProvider;
    fields = jwt_provider_fields;
    empty = jwt_provider;
    builders = builders;
  }

  pub configuration-IsSound : IsSound configuration
  configuration-IsSound = record {
    unset = refl;
    faithful =
        value_IsFaithful 0 (λ b. refl) (λ a b. refl)
        ▸ values_IsFaithful 1 (λ b. refl) (λ b. b.audiences) (λ xs b. record b { audiences = xs })
            (λ xs b. refl) (λ b. refl) (λ a b. refl)
        ▸ pointer_IsFaithful 2 (λ b. refl) (λ a b. refl)
        ▸ tt;
  }
