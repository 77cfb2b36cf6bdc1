-- ===== src/ApplyConfiguration/Agentgateway/Jwks.antt =====
-- mycelium/internal/applyconfiguration/v1alpha1/agentgateway/jwks.go
use agentic_platform.Prelude.{List, Option, String, [], none, refl, some, ◌∷◌}
use agentic_platform.ApplyConfiguration.Json.{Fields, Json, object_of, pointer_field, text}
use agentic_platform.ApplyConfiguration.Foreign.{Foreign}
use agentic_platform.ApplyConfiguration.Builder.{Builder, Configuration, IsSound, ◌▸◌}
use agentic_platform.ApplyConfiguration.Builder.Kinds.{
  pointer_builder, pointer_IsFaithful, value_builder, value_IsFaithful,
}
use agentic_platform.ApplyConfiguration.Agentgateway.RemoteJwks.{RemoteJwks, encode_remote_jwks}

module _ (x : Foreign) where
  pub record Jwks : Type 0 where
    pub remote : Option (RemoteJwks x)
    pub inline : Option String

  abbrev pub jwks : Jwks
  jwks = record { remote = none; inline = none }

  abbrev pub with_remote : Option (RemoteJwks x) → Jwks → Jwks
  with_remote v b = record b { remote = v }

  abbrev pub with_inline : String → Jwks → Jwks
  with_inline v b = record b { inline = some v }

  abbrev pub jwks_fields : Jwks → Fields
  jwks_fields b =
      ("remote", pointer_field (encode_remote_jwks x) b.remote)
      ∷ ("inline", pointer_field text b.inline)
      ∷ []

  abbrev pub encode_jwks : Jwks → Json
  encode_jwks b = object_of (jwks_fields b)

  abbrev pub builders : List (Builder jwks_fields)
  builders =
      pointer_builder jwks_fields "remote" (encode_remote_jwks x) with_remote
      ∷ value_builder jwks_fields "inline" text with_inline
      ∷ []

  abbrev pub configuration : Configuration
  configuration = record { Self = Jwks; fields = jwks_fields; empty = jwks; builders = builders }

  pub configuration-IsSound : IsSound configuration
  configuration-IsSound = record {
    unset = refl;
    faithful =
        pointer_IsFaithful 0 (λ b. refl) (λ a b. refl)
        ▸ value_IsFaithful 1 (λ b. refl) (λ a b. refl)
        ▸ tt;
  }
