-- ===== src/ApplyConfiguration/Agentgateway/FrontendHttp.antt =====
-- mycelium/internal/applyconfiguration/v1alpha1/agentgateway/frontendhttp.go
use agentic_platform.Prelude.{List, Option, [], none, refl, some, ◌∷◌}
use agentic_platform.Prelude.Int.{ℤ}
use agentic_platform.ApplyConfiguration.Json.{Fields, Json, number, object_of, pointer_field}
use agentic_platform.ApplyConfiguration.Foreign.{Foreign}
use agentic_platform.ApplyConfiguration.Builder.{Builder, Configuration, IsSound, ◌▸◌}
use agentic_platform.ApplyConfiguration.Builder.Kinds.{value_builder, value_IsFaithful}

module _ (x : Foreign) where
  pub record FrontendHttp : Type 0 where
    pub max_buffer_size : Option ℤ
    pub http1_max_headers : Option ℤ
    pub http1_idle_timeout : Option x.duration.Carrier
    pub http2_window_size : Option ℤ
    pub http2_connection_window_size : Option ℤ
    pub http2_frame_size : Option ℤ
    pub http2_keepalive_interval : Option x.duration.Carrier
    pub http2_keepalive_timeout : Option x.duration.Carrier

  abbrev pub frontend_http : FrontendHttp
  frontend_http = record {
    max_buffer_size = none;
    http1_max_headers = none;
    http1_idle_timeout = none;
    http2_window_size = none;
    http2_connection_window_size = none;
    http2_frame_size = none;
    http2_keepalive_interval = none;
    http2_keepalive_timeout = none;
  }

  abbrev pub with_max_buffer_size : ℤ → FrontendHttp → FrontendHttp
  with_max_buffer_size v b = record b { max_buffer_size = some v }

  abbrev pub with_http1_max_headers : ℤ → FrontendHttp → FrontendHttp
  with_http1_max_headers v b = record b { http1_max_headers = some v }

  abbrev pub with_http1_idle_timeout : x.duration.Carrier → FrontendHttp → FrontendHttp
  with_http1_idle_timeout v b = record b { http1_idle_timeout = some v }

  abbrev pub with_http2_window_size : ℤ → FrontendHttp → FrontendHttp
  with_http2_window_size v b = record b { http2_window_size = some v }

  abbrev pub with_http2_connection_window_size : ℤ → FrontendHttp → FrontendHttp
  with_http2_connection_window_size v b = record b { http2_connection_window_size = some v }

  abbrev pub with_http2_frame_size : ℤ → FrontendHttp → FrontendHttp
  with_http2_frame_size v b = record b { http2_frame_size = some v }

  abbrev pub with_http2_keepalive_interval : x.duration.Carrier → FrontendHttp → FrontendHttp
  with_http2_keepalive_interval v b = record b { http2_keepalive_interval = some v }

  abbrev pub with_http2_keepalive_timeout : x.duration.Carrier → FrontendHttp → FrontendHttp
  with_http2_keepalive_timeout v b = record b { http2_keepalive_timeout = some v }

  abbrev pub frontend_http_fields : FrontendHttp → Fields
  frontend_http_fields b =
      ("maxBufferSize", pointer_field number b.max_buffer_size)
      ∷ ("http1MaxHeaders", pointer_field number b.http1_max_headers)
      ∷ ("http1IdleTimeout", pointer_field x.duration.encode b.http1_idle_timeout)
      ∷ ("http2WindowSize", pointer_field number b.http2_window_size)
      ∷ ("http2ConnectionWindowSize", pointer_field number b.http2_connection_window_size)
      ∷ ("http2FrameSize", pointer_field number b.http2_frame_size)
      ∷ ("http2KeepaliveInterval", pointer_field x.duration.encode b.http2_keepalive_interval)
      ∷ ("http2KeepaliveTimeout", pointer_field x.duration.encode b.http2_keepalive_timeout)
      ∷ []

  abbrev pub encode_frontend_http : FrontendHttp → Json
  encode_frontend_http b = object_of (frontend_http_fields b)

  abbrev pub builders : List (Builder frontend_http_fields)
  builders =
      value_builder frontend_http_fields "maxBufferSize" number with_max_buffer_size
      ∷ value_builder frontend_http_fields "http1MaxHeaders" number with_http1_max_headers
      ∷ value_builder frontend_http_fields "http1IdleTimeout" x.duration.encode
          with_http1_idle_timeout
      ∷ value_builder frontend_http_fields "http2WindowSize" number with_http2_window_size
      ∷ value_builder frontend_http_fields "http2ConnectionWindowSize" number
          with_http2_connection_window_size
      ∷ value_builder frontend_http_fields "http2FrameSize" number with_http2_frame_size
      ∷ value_builder frontend_http_fields "http2KeepaliveInterval" x.duration.encode
          with_http2_keepalive_interval
      ∷ value_builder frontend_http_fields "http2KeepaliveTimeout" x.duration.encode
          with_http2_keepalive_timeout
      ∷ []

  abbrev pub configuration : Configuration
  configuration = record {
    Self = FrontendHttp;
    fields = frontend_http_fields;
    empty = frontend_http;
    builders = builders;
  }

  pub configuration-IsSound : IsSound configuration
  configuration-IsSound = record {
    unset = refl;
    faithful =
        value_IsFaithful 0 (λ b. refl) (λ a b. refl)
        ▸ value_IsFaithful 1 (λ b. refl) (λ a b. refl)
        ▸ value_IsFaithful 2 (λ b. refl) (λ a b. refl)
        ▸ value_IsFaithful 3 (λ b. refl) (λ a b. refl)
        ▸ value_IsFaithful 4 (λ b. refl) (λ a b. refl)
        ▸ value_IsFaithful 5 (λ b. refl) (λ a b. refl)
        ▸ value_IsFaithful 6 (λ b. refl) (λ a b. refl)
        ▸ value_IsFaithful 7 (λ b. refl) (λ a b. refl)
        ▸ tt;
  }
