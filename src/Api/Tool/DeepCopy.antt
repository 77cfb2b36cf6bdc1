-- ===== src/Api/Tool/DeepCopy.antt =====
-- zz_generated.deepcopy.go: the types of tool_types.go.
use agentic_platform.Prelude.{refl}
use agentic_platform.Memory.{Alloc, pure, ◌>>=◌, Pointer, flat, pointer, copy_pointer, copy_slice}
use agentic_platform.Memory.Copies.{
  IsDeepCopy, pure-IsDeepCopy, copy_pointer-IsDeepCopy, copy_slice-IsDeepCopy, CopyOf-append,
}
use agentic_platform.Kubernetes.{Machinery}
use agentic_platform.Api.Status.DeepCopy.{
  deep_copy_into_base, deep_copy_into_base-IsDeepCopy, deep_copy_into_reference,
  deep_copy_into_reference-IsDeepCopy,
}
use agentic_platform.Api.Status.{reference_located}
use agentic_platform.Api.Tool.{
  CredentialProviderRef, OauthCredentialProviderBinding, oauth_binding_located,
  ApiKeyCredentialProviderBinding, CredentialProviderBinding, binding_located, WorkerPoolConfig,
  worker_pool_located, MyceliumToolSpec, tool_spec_located, CredentialProviderBindingsStatus,
  bindings_status_located, MyceliumToolStatus, MyceliumTool, MyceliumToolList, tool_status_located,
  tool_located, tool_list_located,
}

pub deep_copy_into_credential_provider_ref : CredentialProviderRef → Alloc CredentialProviderRef
deep_copy_into_credential_provider_ref x = pure x

pub deep_copy_credential_provider_ref :
    Pointer CredentialProviderRef → Alloc (Pointer CredentialProviderRef)
deep_copy_credential_provider_ref = copy_pointer deep_copy_into_credential_provider_ref

pub deep_copy_into_oauth_binding :
    OauthCredentialProviderBinding → Alloc OauthCredentialProviderBinding
deep_copy_into_oauth_binding x = do
  scopes ← copy_slice pure x.scopes
  pure (record x { scopes = scopes })

pub deep_copy_oauth_binding :
    Pointer OauthCredentialProviderBinding → Alloc (Pointer OauthCredentialProviderBinding)
deep_copy_oauth_binding = copy_pointer deep_copy_into_oauth_binding

pub deep_copy_into_oauth_binding-IsDeepCopy :
    IsDeepCopy oauth_binding_located deep_copy_into_oauth_binding
unfolding deep_copy_into_oauth_binding
deep_copy_into_oauth_binding-IsDeepCopy x n =
    let c0 = copy_slice-IsDeepCopy flat pure pure-IsDeepCopy x.scopes n in
    record { same = rw c0.same refl; fresh = c0.fresh }

pub deep_copy_into_api_key_binding :
    ApiKeyCredentialProviderBinding → Alloc ApiKeyCredentialProviderBinding
deep_copy_into_api_key_binding x = pure x

pub deep_copy_api_key_binding :
    Pointer ApiKeyCredentialProviderBinding → Alloc (Pointer ApiKeyCredentialProviderBinding)
deep_copy_api_key_binding = copy_pointer deep_copy_into_api_key_binding

pub deep_copy_into_binding : CredentialProviderBinding → Alloc CredentialProviderBinding
deep_copy_into_binding x = do
  oauth ← copy_pointer deep_copy_into_oauth_binding x.oauth
  api_key ← copy_pointer pure x.api_key
  pure (record x { oauth = oauth; api_key = api_key })

pub deep_copy_binding :
    Pointer CredentialProviderBinding → Alloc (Pointer CredentialProviderBinding)
deep_copy_binding = copy_pointer deep_copy_into_binding

pub deep_copy_into_binding-IsDeepCopy : IsDeepCopy binding_located deep_copy_into_binding
unfolding deep_copy_into_binding
deep_copy_into_binding-IsDeepCopy x n =
    let c0 =
      copy_pointer-IsDeepCopy oauth_binding_located deep_copy_into_oauth_binding
        deep_copy_into_oauth_binding-IsDeepCopy x.oauth n in
    let c1 = copy_pointer-IsDeepCopy flat pure pure-IsDeepCopy x.api_key _ in
    record { same = rw (c0.same, c1.same) refl; fresh = CopyOf-append c0 _ _ c1.fresh }

pub deep_copy_into_worker_pool : WorkerPoolConfig → Alloc WorkerPoolConfig
deep_copy_into_worker_pool x = do
  min_replicas ← copy_pointer pure x.min_replicas
  max_replicas ← copy_pointer pure x.max_replicas
  pure (record x { min_replicas = min_replicas; max_replicas = max_replicas })

pub deep_copy_worker_pool : Pointer WorkerPoolConfig → Alloc (Pointer WorkerPoolConfig)
deep_copy_worker_pool = copy_pointer deep_copy_into_worker_pool

pub deep_copy_into_worker_pool-IsDeepCopy :
    IsDeepCopy worker_pool_located deep_copy_into_worker_pool
unfolding deep_copy_into_worker_pool
deep_copy_into_worker_pool-IsDeepCopy x n =
    let c0 = copy_pointer-IsDeepCopy flat pure pure-IsDeepCopy x.min_replicas n in
    let c1 = copy_pointer-IsDeepCopy flat pure pure-IsDeepCopy x.max_replicas _ in
    record { same = rw (c0.same, c1.same) refl; fresh = CopyOf-append c0 _ _ c1.fresh }

module _ (k : Machinery) where
  pub deep_copy_into_tool_spec : MyceliumToolSpec k → Alloc (MyceliumToolSpec k)
  deep_copy_into_tool_spec x = do
    credential_provider_bindings ← copy_slice deep_copy_into_binding x.credential_provider_bindings
    input_schema ← copy_pointer k.json.deep_copy_into x.input_schema
    worker_pool ← deep_copy_into_worker_pool x.worker_pool
    pure (record x {
      credential_provider_bindings = credential_provider_bindings;
      input_schema = input_schema;
      worker_pool = worker_pool;
    })

  pub deep_copy_tool_spec : Pointer (MyceliumToolSpec k) → Alloc (Pointer (MyceliumToolSpec k))
  deep_copy_tool_spec = copy_pointer deep_copy_into_tool_spec

  pub deep_copy_into_tool_spec-IsDeepCopy :
      IsDeepCopy (tool_spec_located k) deep_copy_into_tool_spec
  unfolding deep_copy_into_tool_spec
  deep_copy_into_tool_spec-IsDeepCopy x n =
      let c0 =
        copy_slice-IsDeepCopy binding_located deep_copy_into_binding
          deep_copy_into_binding-IsDeepCopy x.credential_provider_bindings n in
      let c1 =
        copy_pointer-IsDeepCopy k.json.located k.json.deep_copy_into
          k.json.deep_copy_into-IsDeepCopy x.input_schema _ in
      let c2 = deep_copy_into_worker_pool-IsDeepCopy x.worker_pool _ in
      record {
        same = rw (c0.same, c1.same, c2.same) refl;
        fresh = CopyOf-append c0 _ _ (CopyOf-append c1 _ _ c2.fresh);
      }

  pub deep_copy_into_bindings_status :
      CredentialProviderBindingsStatus k → Alloc (CredentialProviderBindingsStatus k)
  deep_copy_into_bindings_status x = do
    credential_providers ← copy_slice (deep_copy_into_reference k) x.credential_providers
    pure (record x { credential_providers = credential_providers })

  pub deep_copy_bindings_status :
      Pointer (CredentialProviderBindingsStatus k)
      → Alloc (Pointer (CredentialProviderBindingsStatus k))
  deep_copy_bindings_status = copy_pointer deep_copy_into_bindings_status

  pub deep_copy_into_bindings_status-IsDeepCopy :
      IsDeepCopy (bindings_status_located k) deep_copy_into_bindings_status
  unfolding deep_copy_into_bindings_status
  deep_copy_into_bindings_status-IsDeepCopy x n =
      let c0 =
        copy_slice-IsDeepCopy (reference_located k) (deep_copy_into_reference k)
          (deep_copy_into_reference-IsDeepCopy k) x.credential_providers n in
      record { same = rw c0.same refl; fresh = c0.fresh }

  pub deep_copy_into_tool_status : MyceliumToolStatus k → Alloc (MyceliumToolStatus k)
  deep_copy_into_tool_status x = do
    base ← deep_copy_into_base k x.base
    pure (record x { base = base })

  pub deep_copy_tool_status :
      Pointer (MyceliumToolStatus k) → Alloc (Pointer (MyceliumToolStatus k))
  deep_copy_tool_status = copy_pointer deep_copy_into_tool_status

  pub deep_copy_into_tool_status-IsDeepCopy :
      IsDeepCopy (tool_status_located k) deep_copy_into_tool_status
  unfolding deep_copy_into_tool_status
  deep_copy_into_tool_status-IsDeepCopy x n =
      let c0 = deep_copy_into_base-IsDeepCopy k x.base n in
      record { same = rw c0.same refl; fresh = c0.fresh }

  pub deep_copy_into_tool : MyceliumTool k → Alloc (MyceliumTool k)
  deep_copy_into_tool x = do
    object_meta ← k.object_meta.deep_copy_into x.object_meta
    spec ← deep_copy_into_tool_spec x.spec
    status ← deep_copy_into_tool_status x.status
    pure (record x { object_meta = object_meta; spec = spec; status = status })

  -- `DeepCopy`; `DeepCopyObject` returns it as an interface, nil for nil.
  pub deep_copy_tool : Pointer (MyceliumTool k) → Alloc (Pointer (MyceliumTool k))
  deep_copy_tool = copy_pointer deep_copy_into_tool

  pub deep_copy_into_tool-IsDeepCopy : IsDeepCopy (tool_located k) deep_copy_into_tool
  unfolding deep_copy_into_tool
  deep_copy_into_tool-IsDeepCopy x n =
      let c0 = k.object_meta.deep_copy_into-IsDeepCopy x.object_meta n in
      let c1 = deep_copy_into_tool_spec-IsDeepCopy x.spec _ in
      let c2 = deep_copy_into_tool_status-IsDeepCopy x.status _ in
      record {
        same = rw (c0.same, c1.same, c2.same) refl;
        fresh = CopyOf-append c0 _ _ (CopyOf-append c1 _ _ c2.fresh);
      }

  pub deep_copy_tool-IsDeepCopy : IsDeepCopy (pointer (tool_located k)) deep_copy_tool
  unfolding deep_copy_tool
  deep_copy_tool-IsDeepCopy =
      copy_pointer-IsDeepCopy (tool_located k) deep_copy_into_tool deep_copy_into_tool-IsDeepCopy

  pub deep_copy_into_tool_list : MyceliumToolList k → Alloc (MyceliumToolList k)
  deep_copy_into_tool_list x = do
    list_meta ← k.list_meta.deep_copy_into x.list_meta
    items ← copy_slice deep_copy_into_tool x.items
    pure (record x { list_meta = list_meta; items = items })

  -- `DeepCopy`; `DeepCopyObject` returns it as an interface, nil for nil.
  pub deep_copy_tool_list : Pointer (MyceliumToolList k) → Alloc (Pointer (MyceliumToolList k))
  deep_copy_tool_list = copy_pointer deep_copy_into_tool_list

  pub deep_copy_into_tool_list-IsDeepCopy :
      IsDeepCopy (tool_list_located k) deep_copy_into_tool_list
  unfolding deep_copy_into_tool_list
  deep_copy_into_tool_list-IsDeepCopy x n =
      let c0 = k.list_meta.deep_copy_into-IsDeepCopy x.list_meta n in
      let c1 =
        copy_slice-IsDeepCopy (tool_located k) deep_copy_into_tool deep_copy_into_tool-IsDeepCopy
          x.items _ in
      record { same = rw (c0.same, c1.same) refl; fresh = CopyOf-append c0 _ _ c1.fresh }

  pub deep_copy_tool_list-IsDeepCopy :
      IsDeepCopy (pointer (tool_list_located k)) deep_copy_tool_list
  unfolding deep_copy_tool_list
  deep_copy_tool_list-IsDeepCopy =
      copy_pointer-IsDeepCopy (tool_list_located k) deep_copy_into_tool_list
        deep_copy_into_tool_list-IsDeepCopy
