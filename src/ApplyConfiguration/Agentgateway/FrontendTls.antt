-- ===== src/ApplyConfiguration/Agentgateway/FrontendTls.antt =====
-- mycelium/internal/applyconfiguration/v1alpha1/agentgateway/frontendtls.go
use agentic_platform.Prelude.{List, Option, String, [], none, refl, some, ◌∷◌}
use agentic_platform.ApplyConfiguration.Appends.{append_values}
use agentic_platform.ApplyConfiguration.Json.{
  Fields, Json, object_of, pointer_field, slice_field, slice_value, text,
}
use agentic_platform.ApplyConfiguration.Foreign.{Foreign}
use agentic_platform.ApplyConfiguration.Builder.{Builder, Configuration, IsSound, ◌▸◌}
use agentic_platform.ApplyConfiguration.Builder.Kinds.{
  value_builder, value_IsFaithful, values_builder, values_IsFaithful,
}

module _ (x : Foreign) where
  pub record FrontendTls : Type 0 where
    pub handshake_timeout : Option x.duration.Carrier
    pub alpn_protocols : Option (Option (List String))
    pub min_tls_version : Option x.tls_version.Carrier
    pub max_tls_version : Option x.tls_version.Carrier
    pub cipher_suites : List x.cipher_suite.Carrier

  abbrev pub frontend_tls : FrontendTls
  frontend_tls = record {
    handshake_timeout = none;
    alpn_protocols = none;
    min_tls_version = none;
    max_tls_version = none;
    cipher_suites = [];
  }

  abbrev pub with_handshake_timeout : x.duration.Carrier → FrontendTls → FrontendTls
  with_handshake_timeout v b = record b { handshake_timeout = some v }

  abbrev pub with_alpn_protocols : (Option (List String)) → FrontendTls → FrontendTls
  with_alpn_protocols v b = record b { alpn_protocols = some v }

  abbrev pub with_min_tls_version : x.tls_version.Carrier → FrontendTls → FrontendTls
  with_min_tls_version v b = record b { min_tls_version = some v }

  abbrev pub with_max_tls_version : x.tls_version.Carrier → FrontendTls → FrontendTls
  with_max_tls_version v b = record b { max_tls_version = some v }

  abbrev pub with_cipher_suites : List x.cipher_suite.Carrier → FrontendTls → FrontendTls
  with_cipher_suites values b = record b { cipher_suites = append_values values b.cipher_suites }

  abbrev pub frontend_tls_fields : FrontendTls → Fields
  frontend_tls_fields b =
      ("handshakeTimeout", pointer_field x.duration.encode b.handshake_timeout)
      ∷ ("alpnProtocols", pointer_field (slice_value text) b.alpn_protocols)
      ∷ ("minProtocolVersion", pointer_field x.tls_version.encode b.min_tls_version)
      ∷ ("maxProtocolVersion", pointer_field x.tls_version.encode b.max_tls_version)
      ∷ ("cipherSuites", slice_field x.cipher_suite.encode b.cipher_suites)
      ∷ []

  abbrev pub encode_frontend_tls : FrontendTls → Json
  encode_frontend_tls b = object_of (frontend_tls_fields b)

  abbrev pub builders : List (Builder frontend_tls_fields)
  builders =
      value_builder frontend_tls_fields "handshakeTimeout" x.duration.encode with_handshake_timeout
      ∷ value_builder frontend_tls_fields "alpnProtocols" (slice_value text) with_alpn_protocols
      ∷ value_builder frontend_tls_fields "minProtocolVersion" x.tls_version.encode
          with_min_tls_version
      ∷ value_builder frontend_tls_fields "maxProtocolVersion" x.tls_version.encode
          with_max_tls_version
      ∷ values_builder frontend_tls_fields "cipherSuites" x.cipher_suite.encode with_cipher_suites
      ∷ []

  abbrev pub configuration : Configuration
  configuration = record {
    Self = FrontendTls;
    fields = frontend_tls_fields;
    empty = frontend_tls;
    builders = builders;
  }

  pub configuration-IsSound : IsSound configuration
  configuration-IsSound = record {
    unset = refl;
    faithful =
        value_IsFaithful 0 (λ b. refl) (λ a b. refl)
        ▸ value_IsFaithful 1 (λ b. refl) (λ a b. refl)
        ▸ value_IsFaithful 2 (λ b. refl) (λ a b. refl)
        ▸ value_IsFaithful 3 (λ b. refl) (λ a b. refl)
        ▸ values_IsFaithful 4 (λ b. refl) (λ b. b.cipher_suites)
            (λ xs b. record b { cipher_suites = xs }) (λ xs b. refl) (λ b. refl) (λ a b. refl)
        ▸ tt;
  }
