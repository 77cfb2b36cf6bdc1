-- ===== src/Api/Ecosystem.antt =====
-- ecosystem_types.go
pub mod DeepCopy
use agentic_platform.Prelude.{String, ◌++◌}
use agentic_platform.Memory.{Slice, Located, slice}
use agentic_platform.Kubernetes.{Machinery}
use agentic_platform.Api.Status.{Conditions, BaseMyceliumResourceStatus, base_located}

abbrev pub ecosystem_ready_condition : String
ecosystem_ready_condition = "Ready"

abbrev pub ecosystem_ready_initializing_reason : String
ecosystem_ready_initializing_reason = "Initializing"

abbrev pub ecosystem_namespace_ready_condition : String
ecosystem_namespace_ready_condition = "NamespaceReady"

abbrev pub ecosystem_gateway_ready_condition : String
ecosystem_gateway_ready_condition = "GatewayReady"

abbrev pub ecosystem_authentication_policy_ready_condition : String
ecosystem_authentication_policy_ready_condition = "AuthenticationPolicyReady"

abbrev pub ecosystem_tool_server_ready_condition : String
ecosystem_tool_server_ready_condition = "ToolServerReady"

abbrev pub ecosystem_tool_server_route_ready_condition : String
ecosystem_tool_server_route_ready_condition = "ToolServerRouteReady"

pub record MyceliumEcosystemSpec : Type 0 where
  pub user_verifier_endpoint : String

module _ (k : Machinery) where
  pub record MyceliumEcosystemStatus : Type 0 where
    pub base : BaseMyceliumResourceStatus k

  abbrev pub ecosystem_status_located : Located MyceliumEcosystemStatus
  ecosystem_status_located = record {
    locs = λ s. (base_located k).locs s.base;
    plain = λ s. record s { base = (base_located k).plain s.base };
  }

  pub record MyceliumEcosystem : Type 0 where
    pub type_meta : k.TypeMeta
    pub object_meta : k.object_meta.Carrier
    pub spec : MyceliumEcosystemSpec
    pub status : MyceliumEcosystemStatus

  abbrev pub ecosystem_located : Located MyceliumEcosystem
  ecosystem_located = record {
    locs = λ x. k.object_meta.located.locs x.object_meta ++ ecosystem_status_located.locs x.status;
    plain = λ x. record x {
      object_meta = k.object_meta.located.plain x.object_meta;
      status = ecosystem_status_located.plain x.status;
    };
  }

  pub record MyceliumEcosystemList : Type 0 where
    pub type_meta : k.TypeMeta
    pub list_meta : k.list_meta.Carrier
    pub items : Slice MyceliumEcosystem

  abbrev pub ecosystem_list_located : Located MyceliumEcosystemList
  ecosystem_list_located = record {
    locs = λ l. k.list_meta.located.locs l.list_meta ++ (slice ecosystem_located).locs l.items;
    plain = λ l. record l {
      list_meta = k.list_meta.located.plain l.list_meta;
      items = (slice ecosystem_located).plain l.items;
    };
  }

  pub get_conditions : MyceliumEcosystem → Conditions k
  get_conditions x = x.status.base.conditions

  pub set_conditions : MyceliumEcosystem → Conditions k → MyceliumEcosystem
  set_conditions x c = record x {
    status = record (x.status) { base = record (x.status.base) { conditions = c } };
  }
