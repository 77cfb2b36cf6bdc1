-- ===== src/Api/CredentialProvider.antt =====
-- credentialprovider_types.go
pub mod DeepCopy
use agentic_platform.Prelude.{String, ◌++◌}
use agentic_platform.Memory.{Pointer, Slice, Located, flat, pointer, slice}
use agentic_platform.Kubernetes.{Machinery}
use agentic_platform.Api.Status.{Conditions, BaseMyceliumResourceStatus, base_located}

-- String types: values other than the constants can be written too.
abbrev pub TokenEndpointAuthMethod : Type 0
TokenEndpointAuthMethod = String

abbrev pub token_endpoint_auth_method_post : TokenEndpointAuthMethod
token_endpoint_auth_method_post = "client_secret_post"

abbrev pub token_endpoint_auth_method_basic : TokenEndpointAuthMethod
token_endpoint_auth_method_basic = "client_secret_basic"

abbrev pub CredentialProviderType : Type 0
CredentialProviderType = String

abbrev pub credential_provider_type_oauth : CredentialProviderType
credential_provider_type_oauth = "OAuth"

abbrev pub credential_provider_type_api_key : CredentialProviderType
credential_provider_type_api_key = "APIKey"

pub record OauthAuthorizationServerMetadata : Type 0 where
  pub issuer : String
  pub authorization_endpoint : String
  pub token_endpoint : String
  pub response_types : Slice String
  pub token_endpoint_auth_methods : Slice TokenEndpointAuthMethod

abbrev pub server_metadata_located : Located OauthAuthorizationServerMetadata
server_metadata_located = record {
  locs = λ m.
      (slice (flat {A = String})).locs m.response_types
      ++ (slice (flat {A = String})).locs m.token_endpoint_auth_methods;
  plain = λ m. record m {
    response_types = (slice flat).plain m.response_types;
    token_endpoint_auth_methods = (slice flat).plain m.token_endpoint_auth_methods;
  };
}

pub record OauthDiscoveryConfig : Type 0 where
  pub discovery_url : Pointer String
  pub authorization_server_metadata : Pointer OauthAuthorizationServerMetadata

abbrev pub discovery_located : Located OauthDiscoveryConfig
discovery_located = record {
  locs = λ d.
      (pointer (flat {A = String})).locs d.discovery_url
      ++ (pointer server_metadata_located).locs d.authorization_server_metadata;
  plain = λ d. record d {
    discovery_url = (pointer flat).plain d.discovery_url;
    authorization_server_metadata =
        (pointer server_metadata_located).plain d.authorization_server_metadata;
  };
}

module _ (k : Machinery) where
  pub record OauthCredentialProviderConfig : Type 0 where
    pub client_id : String
    pub client_secret_ref : k.secret_key_selector.Carrier
    pub discovery : OauthDiscoveryConfig

  abbrev pub oauth_config_located : Located OauthCredentialProviderConfig
  oauth_config_located = record {
    locs = λ c.
        k.secret_key_selector.located.locs c.client_secret_ref
        ++ discovery_located.locs c.discovery;
    plain = λ c. record c {
      client_secret_ref = k.secret_key_selector.located.plain c.client_secret_ref;
      discovery = discovery_located.plain c.discovery;
    };
  }

  pub record ApiKeyCredentialProviderConfig : Type 0 where
    pub secret_ref : k.secret_key_selector.Carrier

  abbrev pub api_key_config_located : Located ApiKeyCredentialProviderConfig
  api_key_config_located = record {
    locs = λ c. k.secret_key_selector.located.locs c.secret_ref;
    plain = λ c. record c { secret_ref = k.secret_key_selector.located.plain c.secret_ref };
  }

  pub record MyceliumCredentialProviderSpec : Type 0 where
    pub type : CredentialProviderType
    pub oauth : Pointer OauthCredentialProviderConfig
    pub api_key : Pointer ApiKeyCredentialProviderConfig

  abbrev pub credential_provider_spec_located : Located MyceliumCredentialProviderSpec
  credential_provider_spec_located = record {
    locs = λ s.
        (pointer oauth_config_located).locs s.oauth
        ++ (pointer api_key_config_located).locs s.api_key;
    plain = λ s. record s {
      oauth = (pointer oauth_config_located).plain s.oauth;
      api_key = (pointer api_key_config_located).plain s.api_key;
    };
  }

  pub record MyceliumCredentialProviderStatus : Type 0 where
    pub base : BaseMyceliumResourceStatus k

  abbrev pub credential_provider_status_located : Located MyceliumCredentialProviderStatus
  credential_provider_status_located = record {
    locs = λ s. (base_located k).locs s.base;
    plain = λ s. record s { base = (base_located k).plain s.base };
  }

  pub record MyceliumCredentialProvider : Type 0 where
    pub type_meta : k.TypeMeta
    pub object_meta : k.object_meta.Carrier
    pub spec : MyceliumCredentialProviderSpec
    pub status : MyceliumCredentialProviderStatus

  abbrev pub credential_provider_located : Located MyceliumCredentialProvider
  credential_provider_located = record {
    locs = λ x.
        k.object_meta.located.locs x.object_meta
        ++ (credential_provider_spec_located.locs x.spec
            ++ credential_provider_status_located.locs x.status);
    plain = λ x. record x {
      object_meta = k.object_meta.located.plain x.object_meta;
      spec = credential_provider_spec_located.plain x.spec;
      status = credential_provider_status_located.plain x.status;
    };
  }

  pub record MyceliumCredentialProviderList : Type 0 where
    pub type_meta : k.TypeMeta
    pub list_meta : k.list_meta.Carrier
    pub items : Slice MyceliumCredentialProvider

  abbrev pub credential_provider_list_located : Located MyceliumCredentialProviderList
  credential_provider_list_located = record {
    locs = λ l.
        k.list_meta.located.locs l.list_meta ++ (slice credential_provider_located).locs l.items;
    plain = λ l. record l {
      list_meta = k.list_meta.located.plain l.list_meta;
      items = (slice credential_provider_located).plain l.items;
    };
  }

  pub get_conditions : MyceliumCredentialProvider → Conditions k
  get_conditions x = x.status.base.conditions

  pub set_conditions : MyceliumCredentialProvider → Conditions k → MyceliumCredentialProvider
  set_conditions x c = record x {
    status = record (x.status) { base = record (x.status.base) { conditions = c } };
  }
