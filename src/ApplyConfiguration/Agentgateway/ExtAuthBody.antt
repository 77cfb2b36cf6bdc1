-- ===== src/ApplyConfiguration/Agentgateway/ExtAuthBody.antt =====
-- mycelium/internal/applyconfiguration/v1alpha1/agentgateway/extauthbody.go
use agentic_platform.Prelude.{List, Option, [], none, refl, some, ◌∷◌}
use agentic_platform.Prelude.Int.{ℤ}
use agentic_platform.ApplyConfiguration.Json.{Fields, Json, number, object_of, pointer_field}
use agentic_platform.ApplyConfiguration.Foreign.{Foreign}
use agentic_platform.ApplyConfiguration.Builder.{Builder, Configuration, IsSound, ◌▸◌}
use agentic_platform.ApplyConfiguration.Builder.Kinds.{value_builder, value_IsFaithful}

module _ (x : Foreign) where
  pub record ExtAuthBody : Type 0 where
    pub max_size : Option ℤ

  abbrev pub ext_auth_body : ExtAuthBody
  ext_auth_body = record { max_size = none }

  abbrev pub with_max_size : ℤ → ExtAuthBody → ExtAuthBody
  with_max_size v b = record b { max_size = some v }

  abbrev pub ext_auth_body_fields : ExtAuthBody → Fields
  ext_auth_body_fields b = ("maxSize", pointer_field number b.max_size) ∷ []

  abbrev pub encode_ext_auth_body : ExtAuthBody → Json
  encode_ext_auth_body b = object_of (ext_auth_body_fields b)

  abbrev pub builders : List (Builder ext_auth_body_fields)
  builders = value_builder ext_auth_body_fields "maxSize" number with_max_size ∷ []

  abbrev pub configuration : Configuration
  configuration = record {
    Self = ExtAuthBody;
    fields = ext_auth_body_fields;
    empty = ext_auth_body;
    builders = builders;
  }

  pub configuration-IsSound : IsSound configuration
  configuration-IsSound = record {
    unset = refl;
    faithful = value_IsFaithful 0 (λ b. refl) (λ a b. refl) ▸ tt;
  }
