-- ===== src/Controller/Keys.antt =====
-- The equality of the names of objects.
use agentic_platform.Prelude.{◌≡◌, refl, ◌↔◌, Bool, true, false, ◌&&◌, arith, str_eq, str_eq_iff}
use agentic_platform.Controller.Client.{ObjectKind, namespace_kind, service_account_kind, ObjectKey}

abbrev pub kind_eq : ObjectKind → ObjectKind → Bool
kind_eq namespace_kind namespace_kind = true
kind_eq service_account_kind service_account_kind = true
kind_eq _ _ = false

pub kind_eq_iff : (a b : ObjectKind) → (kind_eq a b ≡ true) ↔ (a ≡ b)
kind_eq_iff namespace_kind namespace_kind = (λ h. refl, λ h. refl)
kind_eq_iff namespace_kind service_account_kind = (λ h. cc, λ h. cc)
kind_eq_iff service_account_kind namespace_kind = (λ h. cc, λ h. cc)
kind_eq_iff service_account_kind service_account_kind = (λ h. refl, λ h. refl)

unfoldable pub key_eq : ObjectKey → ObjectKey → Bool
key_eq a b = kind_eq a.kind b.kind && str_eq a.namespace b.namespace && str_eq a.name b.name

pub key_eq_iff : (a b : ObjectKey) → (key_eq a b ≡ true) ↔ (a ≡ b)
unfolding key_eq
key_eq_iff a b = (
  λ h. ground (
    arith,
    kind_eq_iff a.kind b.kind,
    str_eq_iff a.namespace b.namespace,
    str_eq_iff a.name b.name,
  ),
  λ h. ground (
    arith,
    kind_eq_iff a.kind b.kind,
    str_eq_iff a.namespace b.namespace,
    str_eq_iff a.name b.name,
  ),
)
