-- ===== src/Returns.antt =====
-- Copies that a store sends back: the endpoints under /returns of
-- eks-pods/intervention-svc/src/routes/intervention.py, over the table `returns`, this service's rows of
-- `audit_log`, and the notices.
pub mod Histories
use Prim.Native.String.{String}
use bookflow_ai_apps.Prelude.{
  ℕ, Bool, true, false, ◌&&◌, not, Option, none, some, List, [], ◌∷◌, ◌++◌, ◌==◌, opt_eq, is_some,
  if◌then◌else◌, fetchone,
}
use bookflow_ai_apps.Sql.{rows_where, update_where}
use bookflow_ai_apps.Exec.{
  http, Exec, pure, raise, gets, or_raise, ◌>>=◌, ◌>>◌, modify, raise_if, transaction,
}
use bookflow_ai_apps.Auth.{AuthContext, Role, hq_admin, branch_clerk, is_hq}

pub data ReturnStatus : Type 0 where
  pending approved rejected : ReturnStatus

pub record Return : Type 0 where
  pub return_id : ℕ
  pub isbn13 : ℕ
  pub location_id : ℕ
  pub qty : ℕ
  pub reason : String
  pub status : ReturnStatus
  pub requested_at : ℕ
  pub hq_approved_at : Option ℕ
  pub rejected_at : Option ℕ
  pub reject_reason : Option String

pub data ReturnAction : Type 0 where
  request approve reject : ReturnAction

-- A row of the log: who did what to which return.
pub record ReturnAudit : Type 0 where
  pub actor_id : ℕ
  pub action : ReturnAction
  pub entity_id : ℕ

pub record Counter : Type 0 where
  pub returns : List Return
  pub audit : List ReturnAudit
  pub sent : List ℕ  -- the notices `ReturnPending`, by return
  pub now : ℕ

abbrev pub undo : Counter → Counter → Counter
undo before after = record after { returns = before.returns; audit = before.audit }

unfoldable pub log : AuthContext → ReturnAction → ℕ → Exec Counter Unit
log ctx action id = modify (λ c. record c {
  audit = c.audit ++ record { actor_id = ctx.user_id; action = action; entity_id = id } ∷ [];
})

unfoldable pub notify_pending : ℕ → Exec Counter Unit
notify_pending id = modify (λ c. record c { sent = c.sent ++ id ∷ [] })

pub record ReturnRequest : Type 0 where
  pub isbn13 : ℕ
  pub location_id : ℕ
  pub qty : ℕ
  pub reason : String

abbrev request_perm : Role → AuthContext → ReturnRequest → Exec Counter Unit
request_perm branch_clerk ctx req =
    raise_if (not (opt_eq ctx.scope_store_id (some req.location_id))) (http 403)
request_perm hq_admin ctx req = pure tt
request_perm _ ctx req = raise (http 403)

abbrev pub new_return : ℕ → ReturnRequest → ℕ → Return
new_return uuid req now = record {
  return_id = uuid;
  isbn13 = req.isbn13;
  location_id = req.location_id;
  qty = req.qty;
  reason = req.reason;
  status = pending;
  requested_at = now;
  hq_approved_at = none;
  rejected_at = none;
  reject_reason = none;
}

unfoldable pub request_rows : ℕ → ReturnRequest → AuthContext → Exec Counter Return
request_rows uuid req ctx = do
  r ← gets (λ c. new_return uuid req c.now)
  modify (λ c. record c { returns = c.returns ++ r ∷ [] })
  log ctx request uuid
  pure r

-- POST /intervention/returns/request, with the id that `uuid4` gave.
unfoldable pub returns_request : ℕ → ReturnRequest → AuthContext → Exec Counter Return
returns_request uuid req ctx = do
  request_perm ctx.role ctx req
  r ← transaction undo (request_rows uuid req ctx)
  notify_pending uuid
  pure r

-- UPDATE returns … WHERE return_id = %s AND status = 'PENDING' RETURNING …
abbrev is_pending : ReturnStatus → Bool
is_pending pending = true
is_pending _ = false

abbrev pub awaits : ℕ → Return → Bool
awaits id r = r.return_id == id && is_pending r.status

abbrev pub set_approved : ℕ → Return → Return
set_approved now r = record r { status = approved; hq_approved_at = some now }

abbrev pub set_rejected : String → ℕ → Return → Return
set_rejected reason now r = record r {
  status = rejected;
  rejected_at = some now;
  reject_reason = some reason;
}

unfoldable pub decide_rows :
    ℕ → (ℕ → Return → Return) → AuthContext → ReturnAction → Exec Counter Unit
decide_rows id change ctx action = do
  row ← gets (λ c. fetchone (rows_where (awaits id) c.returns))
  modify (λ c. record c { returns = update_where (awaits id) (change c.now) c.returns })
  or_raise row (http 404)
  log ctx action id

-- POST /intervention/returns/approve
unfoldable pub returns_approve : ℕ → AuthContext → Exec Counter Unit
returns_approve id ctx = do
  raise_if (not (is_hq ctx.role)) (http 403)
  transaction undo (decide_rows id set_approved ctx approve)
  notify_pending id

-- POST /intervention/returns/reject, which sends no notice.
unfoldable pub returns_reject : ℕ → String → AuthContext → Exec Counter Unit
returns_reject id reason ctx = do
  raise_if (not (is_hq ctx.role)) (http 403)
  transaction undo (decide_rows id (set_rejected reason) ctx reject)

pub data Request : Type 0 where
  ask : ℕ → ReturnRequest → Request
  accept : ℕ → Request
  refuse : ℕ → String → Request

unfoldable pub serve : AuthContext → Request → Counter → Counter
serve ctx (ask uuid req) c = (returns_request uuid req ctx c).1
serve ctx (accept id) c = (returns_approve id ctx c).1
serve ctx (refuse id reason) c = (returns_reject id reason ctx c).1

unfoldable pub serve_all : List (AuthContext × Request) → Counter → Counter
serve_all [] c = c
serve_all ((ctx, r) ∷ rs) c = serve_all rs (serve ctx r c)
