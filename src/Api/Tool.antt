-- ===== src/Api/Tool.antt =====
-- tool_types.go
pub mod DeepCopy
use agentic_platform.Prelude.{String, Option, none, some, ◌++◌, str_eq, if◌then◌else◌}
use agentic_platform.Prelude.Int.{ℤ}
use agentic_platform.Memory.{Pointer, Slice, Located, flat, pointer, slice}
use agentic_platform.Kubernetes.{Machinery}
use agentic_platform.Api.Status.{
  Conditions, BaseMyceliumResourceStatus, base_located, ReferencedResourceStatus, reference_located,
}
use agentic_platform.Api.CredentialProvider.{
  CredentialProviderType, credential_provider_type_oauth, credential_provider_type_api_key,
}

pub record CredentialProviderRef : Type 0 where
  pub name : String

pub record OauthCredentialProviderBinding : Type 0 where
  pub credential_provider_ref : CredentialProviderRef
  pub open credential_provider_ref use *
  pub scopes : Slice String

abbrev pub oauth_binding_located : Located OauthCredentialProviderBinding
oauth_binding_located = record {
  locs = λ b. (slice (flat {A = String})).locs b.scopes;
  plain = λ b. record b { scopes = (slice flat).plain b.scopes };
}

pub record ApiKeyCredentialProviderBinding : Type 0 where
  pub credential_provider_ref : CredentialProviderRef
  pub open credential_provider_ref use *

pub record CredentialProviderBinding : Type 0 where
  pub type : CredentialProviderType
  pub oauth : Pointer OauthCredentialProviderBinding
  pub api_key : Pointer ApiKeyCredentialProviderBinding

abbrev pub binding_located : Located CredentialProviderBinding
binding_located = record {
  locs = λ b.
      (pointer oauth_binding_located).locs b.oauth
      ++ (pointer (flat {A = ApiKeyCredentialProviderBinding})).locs b.api_key;
  plain = λ b. record b {
    oauth = (pointer oauth_binding_located).plain b.oauth;
    api_key = (pointer flat).plain b.api_key;
  };
}

pub record WorkerPoolConfig : Type 0 where
  pub image : String
  pub min_replicas : Pointer ℤ
  pub max_replicas : Pointer ℤ

abbrev pub worker_pool_located : Located WorkerPoolConfig
worker_pool_located = record {
  locs = λ w.
      (pointer (flat {A = ℤ})).locs w.min_replicas ++ (pointer (flat {A = ℤ})).locs w.max_replicas;
  plain = λ w. record w {
    min_replicas = (pointer flat).plain w.min_replicas;
    max_replicas = (pointer flat).plain w.max_replicas;
  };
}

-- `cb.OAuth.CredentialProviderRef.Name`; `none` is the panic at a nil pointer.
abbrev oauth_name : Pointer OauthCredentialProviderBinding → Option String
oauth_name none = none
oauth_name (some r) = some r.content.name

abbrev api_key_name : Pointer ApiKeyCredentialProviderBinding → Option String
api_key_name none = none
api_key_name (some r) = some r.content.name

-- `CredentialProviderName`; `none` is a panic.
unfoldable pub credential_provider_name : CredentialProviderBinding → Option String
credential_provider_name cb =
    if str_eq cb.type credential_provider_type_oauth
    then oauth_name cb.oauth
    else if str_eq cb.type credential_provider_type_api_key
    then api_key_name cb.api_key
    else some ""

module _ (k : Machinery) where
  pub record MyceliumToolSpec : Type 0 where
    pub description : String
    pub credential_provider_bindings : Slice CredentialProviderBinding
    pub input_schema : Pointer k.json.Carrier
    pub worker_pool : WorkerPoolConfig

  abbrev pub tool_spec_located : Located MyceliumToolSpec
  tool_spec_located = record {
    locs = λ s.
        (slice binding_located).locs s.credential_provider_bindings
        ++ ((pointer k.json.located).locs s.input_schema ++ worker_pool_located.locs s.worker_pool);
    plain = λ s. record s {
      credential_provider_bindings = (slice binding_located).plain s.credential_provider_bindings;
      input_schema = (pointer k.json.located).plain s.input_schema;
      worker_pool = worker_pool_located.plain s.worker_pool;
    };
  }

  pub record CredentialProviderBindingsStatus : Type 0 where
    pub credential_providers : Slice (ReferencedResourceStatus k)

  abbrev pub bindings_status_located : Located CredentialProviderBindingsStatus
  bindings_status_located = record {
    locs = λ s. (slice (reference_located k)).locs s.credential_providers;
    plain = λ s. record s {
      credential_providers = (slice (reference_located k)).plain s.credential_providers;
    };
  }

  pub record MyceliumToolStatus : Type 0 where
    pub base : BaseMyceliumResourceStatus k

  abbrev pub tool_status_located : Located MyceliumToolStatus
  tool_status_located = record {
    locs = λ s. (base_located k).locs s.base;
    plain = λ s. record s { base = (base_located k).plain s.base };
  }

  pub record MyceliumTool : Type 0 where
    pub type_meta : k.TypeMeta
    pub object_meta : k.object_meta.Carrier
    pub spec : MyceliumToolSpec
    pub status : MyceliumToolStatus

  abbrev pub tool_located : Located MyceliumTool
  tool_located = record {
    locs = λ x.
        k.object_meta.located.locs x.object_meta
        ++ (tool_spec_located.locs x.spec ++ tool_status_located.locs x.status);
    plain = λ x. record x {
      object_meta = k.object_meta.located.plain x.object_meta;
      spec = tool_spec_located.plain x.spec;
      status = tool_status_located.plain x.status;
    };
  }

  pub record MyceliumToolList : Type 0 where
    pub type_meta : k.TypeMeta
    pub list_meta : k.list_meta.Carrier
    pub items : Slice MyceliumTool

  abbrev pub tool_list_located : Located MyceliumToolList
  tool_list_located = record {
    locs = λ l. k.list_meta.located.locs l.list_meta ++ (slice tool_located).locs l.items;
    plain = λ l. record l {
      list_meta = k.list_meta.located.plain l.list_meta;
      items = (slice tool_located).plain l.items;
    };
  }

  pub get_conditions : MyceliumTool → Conditions k
  get_conditions x = x.status.base.conditions

  pub set_conditions : MyceliumTool → Conditions k → MyceliumTool
  set_conditions x c = record x {
    status = record (x.status) { base = record (x.status.base) { conditions = c } };
  }
