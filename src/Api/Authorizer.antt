-- ===== src/Api/Authorizer.antt =====
-- authorizer_types.go
pub mod DeepCopy
use agentic_platform.Prelude.{String, ◌++◌}
use agentic_platform.Memory.{Pointer, Slice, Located, flat, pointer, slice}
use agentic_platform.Kubernetes.{Machinery}
use agentic_platform.Api.Status.{Conditions, BaseMyceliumResourceStatus, base_located}

-- A string type: values other than the constants can be written too.
abbrev pub AuthorizerType : Type 0
AuthorizerType = String

abbrev pub authorizer_type_jwt : AuthorizerType
authorizer_type_jwt = "JWT"

abbrev pub authorizer_ready_condition : String
authorizer_ready_condition = "Ready"

pub record JwtAuthorizerConfig : Type 0 where
  pub issuer : String
  pub audiences : Slice String
  pub allowed_clients : Slice String
  pub allowed_scopes : Slice String
  pub jwks_endpoint : String

abbrev pub jwt_located : Located JwtAuthorizerConfig
jwt_located = record {
  locs = λ j.
      (slice (flat {A = String})).locs j.audiences
      ++ ((slice (flat {A = String})).locs j.allowed_clients
          ++ (slice (flat {A = String})).locs j.allowed_scopes);
  plain = λ j. record j {
    audiences = (slice flat).plain j.audiences;
    allowed_clients = (slice flat).plain j.allowed_clients;
    allowed_scopes = (slice flat).plain j.allowed_scopes;
  };
}

pub record MyceliumAuthorizerSpec : Type 0 where
  pub type : AuthorizerType
  pub jwt : Pointer JwtAuthorizerConfig

abbrev pub authorizer_spec_located : Located MyceliumAuthorizerSpec
authorizer_spec_located = record {
  locs = λ s. (pointer jwt_located).locs s.jwt;
  plain = λ s. record s { jwt = (pointer jwt_located).plain s.jwt };
}

module _ (k : Machinery) where
  pub record MyceliumAuthorizerStatus : Type 0 where
    pub base : BaseMyceliumResourceStatus k

  abbrev pub authorizer_status_located : Located MyceliumAuthorizerStatus
  authorizer_status_located = record {
    locs = λ s. (base_located k).locs s.base;
    plain = λ s. record s { base = (base_located k).plain s.base };
  }

  pub record MyceliumAuthorizer : Type 0 where
    pub type_meta : k.TypeMeta
    pub object_meta : k.object_meta.Carrier
    pub spec : MyceliumAuthorizerSpec
    pub status : MyceliumAuthorizerStatus

  abbrev pub authorizer_located : Located MyceliumAuthorizer
  authorizer_located = record {
    locs = λ x.
        k.object_meta.located.locs x.object_meta
        ++ (authorizer_spec_located.locs x.spec ++ authorizer_status_located.locs x.status);
    plain = λ x. record x {
      object_meta = k.object_meta.located.plain x.object_meta;
      spec = authorizer_spec_located.plain x.spec;
      status = authorizer_status_located.plain x.status;
    };
  }

  pub record MyceliumAuthorizerList : Type 0 where
    pub type_meta : k.TypeMeta
    pub list_meta : k.list_meta.Carrier
    pub items : Slice MyceliumAuthorizer

  abbrev pub authorizer_list_located : Located MyceliumAuthorizerList
  authorizer_list_located = record {
    locs = λ l. k.list_meta.located.locs l.list_meta ++ (slice authorizer_located).locs l.items;
    plain = λ l. record l {
      list_meta = k.list_meta.located.plain l.list_meta;
      items = (slice authorizer_located).plain l.items;
    };
  }

  pub get_conditions : MyceliumAuthorizer → Conditions k
  get_conditions x = x.status.base.conditions

  pub set_conditions : MyceliumAuthorizer → Conditions k → MyceliumAuthorizer
  set_conditions x c = record x {
    status = record (x.status) { base = record (x.status.base) { conditions = c } };
  }
