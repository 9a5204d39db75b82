-- ===== src/Auth.antt =====
-- The caller of a request: `AuthContext` of eks-pods/intervention-svc/src/auth.py, which each service has a
-- copy of. A user, a warehouse and a location are numbers; a scope that the token lacks is `none`.
use bookflow_ai_apps.Prelude.{ℕ, Bool, true, false, Option}

-- `other` is any role of a token that the code has no name for.
pub data Role : Type 0 where
  hq_admin wh_manager branch_clerk system other : Role

pub record AuthContext : Type 0 where
  pub user_id : ℕ
  pub role : Role
  pub scope_wh_id : Option ℕ
  pub scope_store_id : Option ℕ

-- The tests `ctx.role == "…"`.
abbrev pub is_hq : Role → Bool
is_hq hq_admin = true
is_hq _ = false

abbrev pub is_wh_manager : Role → Bool
is_wh_manager wh_manager = true
is_wh_manager _ = false

abbrev pub is_clerk : Role → Bool
is_clerk branch_clerk = true
is_clerk _ = false
