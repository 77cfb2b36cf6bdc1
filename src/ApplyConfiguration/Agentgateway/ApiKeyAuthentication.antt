-- ===== src/ApplyConfiguration/Agentgateway/ApiKeyAuthentication.antt =====
-- mycelium/internal/applyconfiguration/v1alpha1/agentgateway/apikeyauthentication.go
use agentic_platform.Prelude.{List, Option, [], none, refl, some, ◌∷◌}
use agentic_platform.ApplyConfiguration.Json.{Fields, Json, object_of, pointer_field}
use agentic_platform.ApplyConfiguration.Foreign.{Foreign}
use agentic_platform.ApplyConfiguration.Builder.{Builder, Configuration, IsSound, ◌▸◌}
use agentic_platform.ApplyConfiguration.Builder.Kinds.{
  pointer_builder, pointer_IsFaithful, value_builder, value_IsFaithful,
}
use agentic_platform.ApplyConfiguration.Agentgateway.SecretSelector.{
  SecretSelector, encode_secret_selector,
}

module _ (x : Foreign) where
  pub record ApiKeyAuthentication : Type 0 where
    pub mode : Option x.api_key_authentication_mode.Carrier
    pub secret_ref : Option x.local_object_reference.Carrier
    pub secret_selector : Option (SecretSelector x)

  abbrev pub api_key_authentication : ApiKeyAuthentication
  api_key_authentication = record { mode = none; secret_ref = none; secret_selector = none }

  abbrev pub with_mode :
      x.api_key_authentication_mode.Carrier → ApiKeyAuthentication → ApiKeyAuthentication
  with_mode v b = record b { mode = some v }

  abbrev pub with_secret_ref :
      x.local_object_reference.Carrier → ApiKeyAuthentication → ApiKeyAuthentication
  with_secret_ref v b = record b { secret_ref = some v }

  abbrev pub with_secret_selector :
      Option (SecretSelector x) → ApiKeyAuthentication → ApiKeyAuthentication
  with_secret_selector v b = record b { secret_selector = v }

  abbrev pub api_key_authentication_fields : ApiKeyAuthentication → Fields
  api_key_authentication_fields b =
      ("mode", pointer_field x.api_key_authentication_mode.encode b.mode)
      ∷ ("secretRef", pointer_field x.local_object_reference.encode b.secret_ref)
      ∷ ("secretSelector", pointer_field (encode_secret_selector x) b.secret_selector)
      ∷ []

  abbrev pub encode_api_key_authentication : ApiKeyAuthentication → Json
  encode_api_key_authentication b = object_of (api_key_authentication_fields b)

  abbrev pub builders : List (Builder api_key_authentication_fields)
  builders =
      value_builder api_key_authentication_fields "mode" x.api_key_authentication_mode.encode
        with_mode
      ∷ value_builder api_key_authentication_fields "secretRef" x.local_object_reference.encode
          with_secret_ref
      ∷ pointer_builder api_key_authentication_fields "secretSelector" (encode_secret_selector x)
          with_secret_selector
      ∷ []

  abbrev pub configuration : Configuration
  configuration = record {
    Self = ApiKeyAuthentication;
    fields = api_key_authentication_fields;
    empty = api_key_authentication;
    builders = builders;
  }

  pub configuration-IsSound : IsSound configuration
  configuration-IsSound = record {
    unset = refl;
    faithful =
        value_IsFaithful 0 (λ b. refl) (λ a b. refl)
        ▸ value_IsFaithful 1 (λ b. refl) (λ a b. refl)
        ▸ pointer_IsFaithful 2 (λ b. refl) (λ a b. refl)
        ▸ tt;
  }
