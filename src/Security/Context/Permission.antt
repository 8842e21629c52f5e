-- ===== src/Security/Context/Permission.antt =====
-- Who passes the permission check, and under which tenant a request runs.
use Prim.Native.String.{◌++◌}
use becertain.Prelude.{
  contains, String, true, false, Option, none, some, ◌≡◌, refl, ◌≢◌, ◌⊎◌, ◌↔◌, inl, inr, arith,
  eq_iff, Option-cases,
}
use becertain.Http.{ok, raised, http_error}
use becertain.Security.Context.{
  InternalContext, ensure_permission, TenantModel, enforce_request_tenant,
}

-- The permission check passes exactly for a superuser and for a holder of the permission; with no
-- context it answers 401, and otherwise 403.
pub ensure_permission_cases :
    (permission : String) (current : Option InternalContext)
    → ((ctx : InternalContext)
        → (ensure_permission permission current ≡ ok ctx) ↔ (
            (current ≡ some ctx)
            × ((ctx.is_superuser ≡ true) ⊎ (contains permission ctx.permissions ≡ true))))
      × (current ≡ none
          → ensure_permission permission current
            ≡ raised (http_error 401 "Missing internal context"))
      × ((ctx : InternalContext)
          → current ≡ some ctx
          → ctx.is_superuser ≡ false
          → contains permission ctx.permissions ≡ false
          → ensure_permission permission current
            ≡ raised (http_error 403 ("Missing permission: " ++ permission)))
unfolding ensure_permission
ensure_permission_cases permission none = (
  λ ctx. (λ h. absurd (ground arith), λ h. absurd (ground arith)),
  λ e. refl,
  λ ctx e s c. absurd (ground arith),
)
ensure_permission_cases permission (some c) = (
  λ ctx. (λ h. ground arith, λ h. ground arith),
  λ e. absurd (ground arith),
  λ ctx e s d. ground arith,
)

-- A request runs under the tenant of its context, whatever tenant it names; without a context it
-- runs under the tenant that it names, and is refused if it names none. Its body is left alone.
pub enforce_request_tenant_lem :
    {B : Type 0} (model : TenantModel B) (current : Option InternalContext) (out : TenantModel B)
    → enforce_request_tenant model current ≡ ok out
    → (out.body ≡ model.body)
      × ((ctx : InternalContext) → current ≡ some ctx → out.tenant_id ≡ some ctx.tenant_id)
      × (current ≡ none
          → (out.tenant_id ≡ model.tenant_id)
            × (model.tenant_id ≢ some "")
            × (model.tenant_id ≢ none))
unfolding enforce_request_tenant
enforce_request_tenant_lem model (some c) out h =
    (ground arith, λ ctx e. ground arith, λ e. absurd (ground arith))
enforce_request_tenant_lem model none out h = elim (Option-cases model.tenant_id) [
  | inl unnamed ↦ absurd (ground arith)
  | inr (tenant, named) ↦ (
    ground (arith, eq_iff tenant ""),
    λ ctx e. absurd (ground arith),
    λ _. (
      ground (arith, eq_iff tenant ""),
      ground (arith, eq_iff tenant ""),
      ground (arith, eq_iff tenant ""),
    ),
  )
]
