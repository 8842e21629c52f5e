-- ===== src/Security/Context.antt =====
-- The internal context and the checks that read it. The context variable is passed as an argument.
pub mod Permission
use Prim.Native.String.{◌++◌}
use becertain.Prelude.{
  String, Bool, true, false, not, ◌||◌, ◌&&◌, List, [], ◌∷◌, Option, none, some, if◌then◌else◌,
  str_eq, contains,
}
use text.Mathlib.Text.{starts_with}
use becertain.Http.{Reply, ok, raised, http_error, ◌>>=◌, ◌>>◌, raise_if, or_raise}

pub record InternalContext : Type 0 where
  pub tenant_id : String
  pub org_id : String
  pub user_id : String
  pub username : String
  pub permissions : List String
  pub group_ids : List String
  pub role : String
  pub is_superuser : Bool

unfoldable pub ensure_permission : String → Option InternalContext → Reply InternalContext
ensure_permission permission current = do
  ctx ← or_raise current 401 "Missing internal context"
  raise_if (not ctx.is_superuser && not (contains permission ctx.permissions)) 403
      ("Missing permission: " ++ permission)
  ok ctx

unfoldable pub get_context_tenant : Option String → Option InternalContext → Reply String
get_context_tenant default_tenant (some ctx) = ok ctx.tenant_id
get_context_tenant none none = raised (http_error 401 "Missing tenant context")
get_context_tenant (some tenant) none =
    if str_eq tenant "" then raised (http_error 401 "Missing tenant context") else ok tenant

-- A request model, as far as its tenant goes.
pub record TenantModel (B : Type 0) : Type 0 where
  pub tenant_id : Option String
  pub body : B

unfoldable pub enforce_request_tenant :
    {B : Type 0} → TenantModel B → Option InternalContext → Reply (TenantModel B)
unfolding get_context_tenant
enforce_request_tenant model current = do
  tenant ← get_context_tenant model.tenant_id current
  ok (record model { tenant_id = some tenant })

unfoldable pub requires_internal_auth : String → Bool
requires_internal_auth path = starts_with path "/api/v1" && not (str_eq path "/api/v1/ready")
