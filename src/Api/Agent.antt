-- ===== src/Api/Agent.antt =====
-- agent_types.go
pub mod DeepCopy
pub mod Sharing
pub mod Lists
use agentic_platform.Prelude.{String, ◌++◌}
use agentic_platform.Prelude.Int.{ℤ}
use agentic_platform.Memory.{Pointer, Slice, Located, flat, pointer, slice}
use agentic_platform.Kubernetes.{Machinery}
use agentic_platform.Api.Status.{
  Conditions, conditions_located, BaseMyceliumResourceStatus, base_located,
  ReferencedResourceStatus, reference_located,
}

abbrev pub agent_ready_condition : String
agent_ready_condition = "Ready"

abbrev pub agent_ready_initializing_reason : String
agent_ready_initializing_reason = "Initializing"

pub record ToolRef : Type 0 where
  pub name : String

pub record RateLimitConfig : Type 0 where
  pub unit : String
  pub requests_per_unit : ℤ

pub record ToolBinding : Type 0 where
  pub tool_ref : ToolRef
  pub open tool_ref use *
  pub rate_limit : Pointer RateLimitConfig

abbrev pub tool_binding_located : Located ToolBinding
tool_binding_located = record {
  locs = λ b. (pointer (flat {A = RateLimitConfig})).locs b.rate_limit;
  plain = λ b. record b { rate_limit = (pointer flat).plain b.rate_limit };
}

pub record SandboxPoolConfig : Type 0 where
  pub image : String
  pub shutdown_timeout : String
  pub replicas : Pointer ℤ

abbrev pub sandbox_pool_located : Located SandboxPoolConfig
sandbox_pool_located = record {
  locs = λ s. (pointer (flat {A = ℤ})).locs s.replicas;
  plain = λ s. record s { replicas = (pointer flat).plain s.replicas };
}

pub record MyceliumAgentSpec : Type 0 where
  pub description : String
  pub tool_bindings : Slice ToolBinding
  pub sandbox_pool : SandboxPoolConfig

abbrev pub agent_spec_located : Located MyceliumAgentSpec
agent_spec_located = record {
  locs = λ s.
      (slice tool_binding_located).locs s.tool_bindings ++ sandbox_pool_located.locs s.sandbox_pool;
  plain = λ s. record s {
    tool_bindings = (slice tool_binding_located).plain s.tool_bindings;
    sandbox_pool = sandbox_pool_located.plain s.sandbox_pool;
  };
}

module _ (k : Machinery) where
  pub record ToolBindingStatus : Type 0 where
    pub tool_ref : ToolRef
    pub conditions : Conditions k

  abbrev pub tool_binding_status_located : Located ToolBindingStatus
  tool_binding_status_located = record {
    locs = λ s. (conditions_located k).locs s.conditions;
    plain = λ s. record s { conditions = (conditions_located k).plain s.conditions };
  }

  pub record MyceliumAgentStatus : Type 0 where
    pub base : BaseMyceliumResourceStatus k
    pub tool_bindings : Slice ToolBindingStatus
    pub service_account : ReferencedResourceStatus k

  abbrev pub agent_status_located : Located MyceliumAgentStatus
  agent_status_located = record {
    locs = λ s.
        (base_located k).locs s.base
        ++ (slice tool_binding_status_located).locs s.tool_bindings
        ++ (reference_located k).locs s.service_account;
    plain = λ s. record s {
      base = (base_located k).plain s.base;
      tool_bindings = (slice tool_binding_status_located).plain s.tool_bindings;
      service_account = (reference_located k).plain s.service_account;
    };
  }

  pub record MyceliumAgent : Type 0 where
    pub type_meta : k.TypeMeta
    pub object_meta : k.object_meta.Carrier
    pub spec : MyceliumAgentSpec
    pub status : MyceliumAgentStatus

  abbrev pub agent_located : Located MyceliumAgent
  agent_located = record {
    locs = λ a.
        k.object_meta.located.locs a.object_meta
        ++ (agent_spec_located.locs a.spec ++ agent_status_located.locs a.status);
    plain = λ a. record a {
      object_meta = k.object_meta.located.plain a.object_meta;
      spec = agent_spec_located.plain a.spec;
      status = agent_status_located.plain a.status;
    };
  }

  pub record MyceliumAgentList : Type 0 where
    pub type_meta : k.TypeMeta
    pub list_meta : k.list_meta.Carrier
    pub items : Slice MyceliumAgent

  abbrev pub agent_list_located : Located MyceliumAgentList
  agent_list_located = record {
    locs = λ l. k.list_meta.located.locs l.list_meta ++ (slice agent_located).locs l.items;
    plain = λ l. record l {
      list_meta = k.list_meta.located.plain l.list_meta;
      items = (slice agent_located).plain l.items;
    };
  }

  pub get_conditions : MyceliumAgent → Conditions k
  get_conditions a = a.status.base.conditions

  pub set_conditions : MyceliumAgent → Conditions k → MyceliumAgent
  set_conditions a c = record a {
    status = record (a.status) { base = record (a.status.base) { conditions = c } };
  }
