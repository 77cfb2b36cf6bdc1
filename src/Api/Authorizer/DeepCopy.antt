-- ===== src/Api/Authorizer/DeepCopy.antt =====
-- zz_generated.deepcopy.go: the types of authorizer_types.go.
use agentic_platform.Prelude.{refl}
use agentic_platform.Memory.{Alloc, pure, ◌>>=◌, Pointer, flat, pointer, copy_pointer, copy_slice}
use agentic_platform.Memory.Copies.{
  IsDeepCopy, pure-IsDeepCopy, copy_pointer-IsDeepCopy, copy_slice-IsDeepCopy, CopyOf-append,
}
use agentic_platform.Kubernetes.{Machinery}
use agentic_platform.Api.Status.DeepCopy.{deep_copy_into_base, deep_copy_into_base-IsDeepCopy}
use agentic_platform.Api.Authorizer.{
  JwtAuthorizerConfig, jwt_located, MyceliumAuthorizerSpec, authorizer_spec_located,
  MyceliumAuthorizerStatus, MyceliumAuthorizer, MyceliumAuthorizerList, authorizer_status_located,
  authorizer_located, authorizer_list_located,
}

pub deep_copy_into_jwt : JwtAuthorizerConfig → Alloc JwtAuthorizerConfig
deep_copy_into_jwt x = do
  audiences ← copy_slice pure x.audiences
  allowed_clients ← copy_slice pure x.allowed_clients
  allowed_scopes ← copy_slice pure x.allowed_scopes
  pure (record x {
    audiences = audiences;
    allowed_clients = allowed_clients;
    allowed_scopes = allowed_scopes;
  })

pub deep_copy_jwt : Pointer JwtAuthorizerConfig → Alloc (Pointer JwtAuthorizerConfig)
deep_copy_jwt = copy_pointer deep_copy_into_jwt

pub deep_copy_into_jwt-IsDeepCopy : IsDeepCopy jwt_located deep_copy_into_jwt
unfolding deep_copy_into_jwt
deep_copy_into_jwt-IsDeepCopy x n =
    let c0 = copy_slice-IsDeepCopy flat pure pure-IsDeepCopy x.audiences n in
    let c1 = copy_slice-IsDeepCopy flat pure pure-IsDeepCopy x.allowed_clients _ in
    let c2 = copy_slice-IsDeepCopy flat pure pure-IsDeepCopy x.allowed_scopes _ in
    record {
      same = rw (c0.same, c1.same, c2.same) refl;
      fresh = CopyOf-append c0 _ _ (CopyOf-append c1 _ _ c2.fresh);
    }

pub deep_copy_into_authorizer_spec : MyceliumAuthorizerSpec → Alloc MyceliumAuthorizerSpec
deep_copy_into_authorizer_spec x = do
  jwt ← copy_pointer deep_copy_into_jwt x.jwt
  pure (record x { jwt = jwt })

pub deep_copy_authorizer_spec :
    Pointer MyceliumAuthorizerSpec → Alloc (Pointer MyceliumAuthorizerSpec)
deep_copy_authorizer_spec = copy_pointer deep_copy_into_authorizer_spec

pub deep_copy_into_authorizer_spec-IsDeepCopy :
    IsDeepCopy authorizer_spec_located deep_copy_into_authorizer_spec
unfolding deep_copy_into_authorizer_spec
deep_copy_into_authorizer_spec-IsDeepCopy x n =
    let c0 =
      copy_pointer-IsDeepCopy jwt_located deep_copy_into_jwt deep_copy_into_jwt-IsDeepCopy x.jwt
        n in
    record { same = rw c0.same refl; fresh = c0.fresh }

module _ (k : Machinery) where
  pub deep_copy_into_authorizer_status :
      MyceliumAuthorizerStatus k → Alloc (MyceliumAuthorizerStatus k)
  deep_copy_into_authorizer_status x = do
    base ← deep_copy_into_base k x.base
    pure (record x { base = base })

  pub deep_copy_authorizer_status :
      Pointer (MyceliumAuthorizerStatus k) → Alloc (Pointer (MyceliumAuthorizerStatus k))
  deep_copy_authorizer_status = copy_pointer deep_copy_into_authorizer_status

  pub deep_copy_into_authorizer_status-IsDeepCopy :
      IsDeepCopy (authorizer_status_located k) deep_copy_into_authorizer_status
  unfolding deep_copy_into_authorizer_status
  deep_copy_into_authorizer_status-IsDeepCopy x n =
      let c0 = deep_copy_into_base-IsDeepCopy k x.base n in
      record { same = rw c0.same refl; fresh = c0.fresh }

  pub deep_copy_into_authorizer : MyceliumAuthorizer k → Alloc (MyceliumAuthorizer k)
  deep_copy_into_authorizer x = do
    object_meta ← k.object_meta.deep_copy_into x.object_meta
    spec ← deep_copy_into_authorizer_spec x.spec
    status ← deep_copy_into_authorizer_status x.status
    pure (record x { object_meta = object_meta; spec = spec; status = status })

  -- `DeepCopy`; `DeepCopyObject` returns it as an interface, nil for nil.
  pub deep_copy_authorizer : Pointer (MyceliumAuthorizer k) → Alloc (Pointer (MyceliumAuthorizer k))
  deep_copy_authorizer = copy_pointer deep_copy_into_authorizer

  pub deep_copy_into_authorizer-IsDeepCopy :
      IsDeepCopy (authorizer_located k) deep_copy_into_authorizer
  unfolding deep_copy_into_authorizer
  deep_copy_into_authorizer-IsDeepCopy x n =
      let c0 = k.object_meta.deep_copy_into-IsDeepCopy x.object_meta n in
      let c1 = deep_copy_into_authorizer_spec-IsDeepCopy x.spec _ in
      let c2 = deep_copy_into_authorizer_status-IsDeepCopy x.status _ in
      record {
        same = rw (c0.same, c1.same, c2.same) refl;
        fresh = CopyOf-append c0 _ _ (CopyOf-append c1 _ _ c2.fresh);
      }

  pub deep_copy_authorizer-IsDeepCopy :
      IsDeepCopy (pointer (authorizer_located k)) deep_copy_authorizer
  unfolding deep_copy_authorizer
  deep_copy_authorizer-IsDeepCopy =
      copy_pointer-IsDeepCopy (authorizer_located k) deep_copy_into_authorizer
        deep_copy_into_authorizer-IsDeepCopy

  pub deep_copy_into_authorizer_list : MyceliumAuthorizerList k → Alloc (MyceliumAuthorizerList k)
  deep_copy_into_authorizer_list x = do
    list_meta ← k.list_meta.deep_copy_into x.list_meta
    items ← copy_slice deep_copy_into_authorizer x.items
    pure (record x { list_meta = list_meta; items = items })

  -- `DeepCopy`; `DeepCopyObject` returns it as an interface, nil for nil.
  pub deep_copy_authorizer_list :
      Pointer (MyceliumAuthorizerList k) → Alloc (Pointer (MyceliumAuthorizerList k))
  deep_copy_authorizer_list = copy_pointer deep_copy_into_authorizer_list

  pub deep_copy_into_authorizer_list-IsDeepCopy :
      IsDeepCopy (authorizer_list_located k) deep_copy_into_authorizer_list
  unfolding deep_copy_into_authorizer_list
  deep_copy_into_authorizer_list-IsDeepCopy x n =
      let c0 = k.list_meta.deep_copy_into-IsDeepCopy x.list_meta n in
      let c1 =
        copy_slice-IsDeepCopy (authorizer_located k) deep_copy_into_authorizer
          deep_copy_into_authorizer-IsDeepCopy x.items _ in
      record { same = rw (c0.same, c1.same) refl; fresh = CopyOf-append c0 _ _ c1.fresh }

  pub deep_copy_authorizer_list-IsDeepCopy :
      IsDeepCopy (pointer (authorizer_list_located k)) deep_copy_authorizer_list
  unfolding deep_copy_authorizer_list
  deep_copy_authorizer_list-IsDeepCopy =
      copy_pointer-IsDeepCopy (authorizer_list_located k) deep_copy_into_authorizer_list
        deep_copy_into_authorizer_list-IsDeepCopy
