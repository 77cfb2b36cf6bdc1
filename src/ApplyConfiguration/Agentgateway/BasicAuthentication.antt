-- ===== src/ApplyConfiguration/Agentgateway/BasicAuthentication.antt =====
-- mycelium/internal/applyconfiguration/v1alpha1/agentgateway/basicauthentication.go
use agentic_platform.Prelude.{List, Option, String, [], none, refl, some, ◌∷◌}
use agentic_platform.ApplyConfiguration.Appends.{append_values}
use agentic_platform.ApplyConfiguration.Json.{
  Fields, Json, object_of, pointer_field, slice_field, text,
}
use agentic_platform.ApplyConfiguration.Foreign.{Foreign}
use agentic_platform.ApplyConfiguration.Builder.{Builder, Configuration, IsSound, ◌▸◌}
use agentic_platform.ApplyConfiguration.Builder.Kinds.{
  value_builder, value_IsFaithful, values_builder, values_IsFaithful,
}

module _ (x : Foreign) where
  pub record BasicAuthentication : Type 0 where
    pub mode : Option x.basic_authentication_mode.Carrier
    pub realm : Option String
    pub users : List String
    pub secret_ref : Option x.local_object_reference.Carrier

  abbrev pub basic_authentication : BasicAuthentication
  basic_authentication = record { mode = none; realm = none; users = []; secret_ref = none }

  abbrev pub with_mode :
      x.basic_authentication_mode.Carrier → BasicAuthentication → BasicAuthentication
  with_mode v b = record b { mode = some v }

  abbrev pub with_realm : String → BasicAuthentication → BasicAuthentication
  with_realm v b = record b { realm = some v }

  abbrev pub with_users : List String → BasicAuthentication → BasicAuthentication
  with_users values b = record b { users = append_values values b.users }

  abbrev pub with_secret_ref :
      x.local_object_reference.Carrier → BasicAuthentication → BasicAuthentication
  with_secret_ref v b = record b { secret_ref = some v }

  abbrev pub basic_authentication_fields : BasicAuthentication → Fields
  basic_authentication_fields b =
      ("mode", pointer_field x.basic_authentication_mode.encode b.mode)
      ∷ ("realm", pointer_field text b.realm)
      ∷ ("users", slice_field text b.users)
      ∷ ("secretRef", pointer_field x.local_object_reference.encode b.secret_ref)
      ∷ []

  abbrev pub encode_basic_authentication : BasicAuthentication → Json
  encode_basic_authentication b = object_of (basic_authentication_fields b)

  abbrev pub builders : List (Builder basic_authentication_fields)
  builders =
      value_builder basic_authentication_fields "mode" x.basic_authentication_mode.encode with_mode
      ∷ value_builder basic_authentication_fields "realm" text with_realm
      ∷ values_builder basic_authentication_fields "users" text with_users
      ∷ value_builder basic_authentication_fields "secretRef" x.local_object_reference.encode
          with_secret_ref
      ∷ []

  abbrev pub configuration : Configuration
  configuration = record {
    Self = BasicAuthentication;
    fields = basic_authentication_fields;
    empty = basic_authentication;
    builders = builders;
  }

  pub configuration-IsSound : IsSound configuration
  configuration-IsSound = record {
    unset = refl;
    faithful =
        value_IsFaithful 0 (λ b. refl) (λ a b. refl)
        ▸ value_IsFaithful 1 (λ b. refl) (λ a b. refl)
        ▸ values_IsFaithful 2 (λ b. refl) (λ b. b.users) (λ xs b. record b { users = xs })
            (λ xs b. refl) (λ b. refl) (λ a b. refl)
        ▸ value_IsFaithful 3 (λ b. refl) (λ a b. refl)
        ▸ tt;
  }
