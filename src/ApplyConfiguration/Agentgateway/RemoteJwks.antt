-- ===== src/ApplyConfiguration/Agentgateway/RemoteJwks.antt =====
-- mycelium/internal/applyconfiguration/v1alpha1/agentgateway/remotejwks.go
use agentic_platform.Prelude.{List, Option, String, [], none, refl, some, ◌∷◌}
use agentic_platform.ApplyConfiguration.Json.{Fields, Json, object_of, pointer_field, text}
use agentic_platform.ApplyConfiguration.Foreign.{Foreign}
use agentic_platform.ApplyConfiguration.Builder.{Builder, Configuration, IsSound, ◌▸◌}
use agentic_platform.ApplyConfiguration.Builder.Kinds.{value_builder, value_IsFaithful}

module _ (x : Foreign) where
  pub record RemoteJwks : Type 0 where
    pub jwks_path : Option String
    pub cache_duration : Option x.duration.Carrier
    pub backend_ref : Option x.backend_object_reference.Carrier

  abbrev pub remote_jwks : RemoteJwks
  remote_jwks = record { jwks_path = none; cache_duration = none; backend_ref = none }

  abbrev pub with_jwks_path : String → RemoteJwks → RemoteJwks
  with_jwks_path v b = record b { jwks_path = some v }

  abbrev pub with_cache_duration : x.duration.Carrier → RemoteJwks → RemoteJwks
  with_cache_duration v b = record b { cache_duration = some v }

  abbrev pub with_backend_ref : x.backend_object_reference.Carrier → RemoteJwks → RemoteJwks
  with_backend_ref v b = record b { backend_ref = some v }

  abbrev pub remote_jwks_fields : RemoteJwks → Fields
  remote_jwks_fields b =
      ("jwksPath", pointer_field text b.jwks_path)
      ∷ ("cacheDuration", pointer_field x.duration.encode b.cache_duration)
      ∷ ("backendRef", pointer_field x.backend_object_reference.encode b.backend_ref)
      ∷ []

  abbrev pub encode_remote_jwks : RemoteJwks → Json
  encode_remote_jwks b = object_of (remote_jwks_fields b)

  abbrev pub builders : List (Builder remote_jwks_fields)
  builders =
      value_builder remote_jwks_fields "jwksPath" text with_jwks_path
      ∷ value_builder remote_jwks_fields "cacheDuration" x.duration.encode with_cache_duration
      ∷ value_builder remote_jwks_fields "backendRef" x.backend_object_reference.encode
          with_backend_ref
      ∷ []

  abbrev pub configuration : Configuration
  configuration = record {
    Self = RemoteJwks;
    fields = remote_jwks_fields;
    empty = remote_jwks;
    builders = builders;
  }

  pub configuration-IsSound : IsSound configuration
  configuration-IsSound = record {
    unset = refl;
    faithful =
        value_IsFaithful 0 (λ b. refl) (λ a b. refl)
        ▸ value_IsFaithful 1 (λ b. refl) (λ a b. refl)
        ▸ value_IsFaithful 2 (λ b. refl) (λ a b. refl)
        ▸ tt;
  }
