-- ===== src/ApplyConfiguration/Agentgateway/HostnameRewrite.antt =====
-- mycelium/internal/applyconfiguration/v1alpha1/agentgateway/hostnamerewrite.go
use agentic_platform.Prelude.{List, Option, [], none, refl, some, ◌∷◌}
use agentic_platform.ApplyConfiguration.Json.{Fields, Json, object_of, pointer_field}
use agentic_platform.ApplyConfiguration.Foreign.{Foreign}
use agentic_platform.ApplyConfiguration.Builder.{Builder, Configuration, IsSound, ◌▸◌}
use agentic_platform.ApplyConfiguration.Builder.Kinds.{value_builder, value_IsFaithful}

module _ (x : Foreign) where
  pub record HostnameRewrite : Type 0 where
    pub mode : Option x.hostname_rewrite_mode.Carrier

  abbrev pub hostname_rewrite : HostnameRewrite
  hostname_rewrite = record { mode = none }

  abbrev pub with_mode : x.hostname_rewrite_mode.Carrier → HostnameRewrite → HostnameRewrite
  with_mode v b = record b { mode = some v }

  abbrev pub hostname_rewrite_fields : HostnameRewrite → Fields
  hostname_rewrite_fields b = ("mode", pointer_field x.hostname_rewrite_mode.encode b.mode) ∷ []

  abbrev pub encode_hostname_rewrite : HostnameRewrite → Json
  encode_hostname_rewrite b = object_of (hostname_rewrite_fields b)

  abbrev pub builders : List (Builder hostname_rewrite_fields)
  builders =
      value_builder hostname_rewrite_fields "mode" x.hostname_rewrite_mode.encode with_mode ∷ []

  abbrev pub configuration : Configuration
  configuration = record {
    Self = HostnameRewrite;
    fields = hostname_rewrite_fields;
    empty = hostname_rewrite;
    builders = builders;
  }

  pub configuration-IsSound : IsSound configuration
  configuration-IsSound = record {
    unset = refl;
    faithful = value_IsFaithful 0 (λ b. refl) (λ a b. refl) ▸ tt;
  }
