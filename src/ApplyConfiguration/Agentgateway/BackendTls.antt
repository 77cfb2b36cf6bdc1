-- ===== src/ApplyConfiguration/Agentgateway/BackendTls.antt =====
-- mycelium/internal/applyconfiguration/v1alpha1/agentgateway/backendtls.go
use agentic_platform.Prelude.{List, Option, String, [], none, refl, some, ◌∷◌}
use agentic_platform.ApplyConfiguration.Appends.{append_values}
use agentic_platform.ApplyConfiguration.Json.{
  Fields, Json, object_of, pointer_field, slice_field, slice_value, text,
}
use agentic_platform.ApplyConfiguration.Foreign.{Foreign}
use agentic_platform.ApplyConfiguration.Builder.{Builder, Configuration, IsSound, ◌▸◌}
use agentic_platform.ApplyConfiguration.Builder.Kinds.{
  value_builder, value_IsFaithful, values_builder, values_IsFaithful,
}

module _ (x : Foreign) where
  pub record BackendTls : Type 0 where
    pub mtls_certificate_ref : List x.local_object_reference.Carrier
    pub ca_certificate_refs : List x.local_object_reference.Carrier
    pub insecure_skip_verify : Option x.insecure_tls_mode.Carrier
    pub sni : Option String
    pub verify_subject_alt_names : List String
    pub alpn_protocols : Option (Option (List String))

  abbrev pub backend_tls : BackendTls
  backend_tls = record {
    mtls_certificate_ref = [];
    ca_certificate_refs = [];
    insecure_skip_verify = none;
    sni = none;
    verify_subject_alt_names = [];
    alpn_protocols = none;
  }

  abbrev pub with_mtls_certificate_ref :
      List x.local_object_reference.Carrier → BackendTls → BackendTls
  with_mtls_certificate_ref values b = record b {
    mtls_certificate_ref = append_values values b.mtls_certificate_ref;
  }

  abbrev pub with_ca_certificate_refs :
      List x.local_object_reference.Carrier → BackendTls → BackendTls
  with_ca_certificate_refs values b = record b {
    ca_certificate_refs = append_values values b.ca_certificate_refs;
  }

  abbrev pub with_insecure_skip_verify : x.insecure_tls_mode.Carrier → BackendTls → BackendTls
  with_insecure_skip_verify v b = record b { insecure_skip_verify = some v }

  abbrev pub with_sni : String → BackendTls → BackendTls
  with_sni v b = record b { sni = some v }

  abbrev pub with_verify_subject_alt_names : List String → BackendTls → BackendTls
  with_verify_subject_alt_names values b = record b {
    verify_subject_alt_names = append_values values b.verify_subject_alt_names;
  }

  abbrev pub with_alpn_protocols : (Option (List String)) → BackendTls → BackendTls
  with_alpn_protocols v b = record b { alpn_protocols = some v }

  abbrev pub backend_tls_fields : BackendTls → Fields
  backend_tls_fields b =
      ("mtlsCertificateRef", slice_field x.local_object_reference.encode b.mtls_certificate_ref)
      ∷ ("caCertificateRefs", slice_field x.local_object_reference.encode b.ca_certificate_refs)
      ∷ ("insecureSkipVerify", pointer_field x.insecure_tls_mode.encode b.insecure_skip_verify)
      ∷ ("sni", pointer_field text b.sni)
      ∷ ("verifySubjectAltNames", slice_field text b.verify_subject_alt_names)
      ∷ ("alpnProtocols", pointer_field (slice_value text) b.alpn_protocols)
      ∷ []

  abbrev pub encode_backend_tls : BackendTls → Json
  encode_backend_tls b = object_of (backend_tls_fields b)

  abbrev pub builders : List (Builder backend_tls_fields)
  builders =
      values_builder backend_tls_fields "mtlsCertificateRef" x.local_object_reference.encode
        with_mtls_certificate_ref
      ∷ values_builder backend_tls_fields "caCertificateRefs" x.local_object_reference.encode
          with_ca_certificate_refs
      ∷ value_builder backend_tls_fields "insecureSkipVerify" x.insecure_tls_mode.encode
          with_insecure_skip_verify
      ∷ value_builder backend_tls_fields "sni" text with_sni
      ∷ values_builder backend_tls_fields "verifySubjectAltNames" text with_verify_subject_alt_names
      ∷ value_builder backend_tls_fields "alpnProtocols" (slice_value text) with_alpn_protocols
      ∷ []

  abbrev pub configuration : Configuration
  configuration = record {
    Self = BackendTls;
    fields = backend_tls_fields;
    empty = backend_tls;
    builders = builders;
  }

  pub configuration-IsSound : IsSound configuration
  configuration-IsSound = record {
    unset = refl;
    faithful =
        values_IsFaithful 0 (λ b. refl) (λ b. b.mtls_certificate_ref)
          (λ xs b. record b { mtls_certificate_ref = xs }) (λ xs b. refl) (λ b. refl) (λ a b. refl)
        ▸ values_IsFaithful 1 (λ b. refl) (λ b. b.ca_certificate_refs)
            (λ xs b. record b { ca_certificate_refs = xs }) (λ xs b. refl) (λ b. refl) (λ a b. refl)
        ▸ value_IsFaithful 2 (λ b. refl) (λ a b. refl)
        ▸ value_IsFaithful 3 (λ b. refl) (λ a b. refl)
        ▸ values_IsFaithful 4 (λ b. refl) (λ b. b.verify_subject_alt_names)
            (λ xs b. record b { verify_subject_alt_names = xs }) (λ xs b. refl) (λ b. refl)
            (λ a b. refl)
        ▸ value_IsFaithful 5 (λ b. refl) (λ a b. refl)
        ▸ tt;
  }
