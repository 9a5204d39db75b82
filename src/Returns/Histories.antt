-- ===== src/Returns/Histories.antt =====
-- What holds of the returns over every sequence of requests.
use Prim.Native.String.{String}
use bookflow_ai_apps.Prelude.{
  ℕ, ◌≡◌, ◌≢◌, refl, ap, Bool, true, false, List, [], ◌∷◌, arith, All, All-append, is_some,
}
use bookflow_ai_apps.Sql.{update_where, All-update}
use bookflow_ai_apps.Exec.{Exec, transaction}
use bookflow_ai_apps.Exec.Keeps.{
  Keeps, Keeps-bind, Keeps-raise_if, Keeps-pure, Keeps-transaction, keeps_rules,
}
use bookflow_ai_apps.Auth.{AuthContext, Role, hq_admin, branch_clerk}
use bookflow_ai_apps.Returns.{
  Return, ReturnStatus, approved, rejected, ReturnAction, ReturnRequest, Counter, undo, log,
  notify_pending, request_perm, new_return, request_rows, returns_request, awaits, is_pending,
  set_approved, set_rejected, decide_rows, returns_approve, returns_reject, Request, ask, accept,
  refuse, serve, serve_all,
}

abbrev is_approved : ReturnStatus → Bool
is_approved approved = true
is_approved _ = false

abbrev is_rejected : ReturnStatus → Bool
is_rejected rejected = true
is_rejected _ = false

-- The times of a return tell its status, and a reason goes with a rejection alone.
pub record IsConsistent (r : Return) : Type 0 where
  pub approval : is_some r.hq_approved_at ≡ is_approved r.status
  pub rejection : is_some r.rejected_at ≡ is_rejected r.status
  pub explained : is_some r.reject_reason ≡ is_rejected r.status

-- A property of rows that the three statements keep.
record IsKept (Q : Return → Type 0) : Type 0 where
  at_approval : (now : ℕ) (r : Return) → is_pending r.status ≡ true → Q r → Q (set_approved now r)
  at_rejection :
      (reason : String) (now : ℕ) (r : Return)
      → is_pending r.status ≡ true
      → Q r
      → Q (set_rejected reason now r)

-- A request is fitting if the return that it may add has the property.
abbrev Fits : (Return → Type 0) → AuthContext × Request → Type 0
Fits Q (ctx, ask uuid req) = (now : ℕ) → Q (new_return uuid req now)
Fits Q (ctx, accept id) = Unit
Fits Q (ctx, refuse id reason) = Unit

module _ (Q : Return → Type 0) (k : IsKept Q) where
  abbrev Rows : Counter → Type 0
  Rows c = All Q c.returns

  log-Rows : (ctx : AuthContext) (a : ReturnAction) (id : ℕ) → Keeps Rows (log ctx a id)
  unfolding log
  log-Rows ctx a id = record { at = λ c h. h }

  notify-Rows : (id : ℕ) → Keeps Rows (notify_pending id)
  unfolding notify_pending
  notify-Rows id = record { at = λ c h. h }

  perm-Rows :
      (role : Role) (ctx : AuthContext) (req : ReturnRequest)
      → Keeps Rows (request_perm role ctx req)
  perm-Rows hq_admin ctx req = search keeps_rules
  perm-Rows branch_clerk ctx req = search keeps_rules
  perm-Rows Role.wh_manager ctx req = search keeps_rules
  perm-Rows Role.system ctx req = search keeps_rules
  perm-Rows Role.other ctx req = search keeps_rules

  request_rows-Rows :
      (uuid : ℕ) (req : ReturnRequest) (ctx : AuthContext)
      → ((now : ℕ) → Q (new_return uuid req now))
      → Keeps Rows (request_rows uuid req ctx)
  unfolding request_rows log
  request_rows-Rows uuid req ctx new = record {
    at = λ c h. All-append Q c.returns _ h (new c.now, tt);
  }

  decide_rows-Rows :
      (id : ℕ) (change : ℕ → Return → Return) (ctx : AuthContext) (a : ReturnAction)
      → ((now : ℕ) (r : Return) → is_pending r.status ≡ true → Q r → Q (change now r))
      → Keeps Rows (decide_rows id change ctx a)
  unfolding decide_rows
  decide_rows-Rows id change ctx a keep = search (keeps_rules, log-Rows, changed) depth 14
    where
      changed :
          (c : Counter)
          → Rows c
          → Rows (record c { returns = update_where (awaits id) (change c.now) c.returns })
      changed c h = All-update Q _ _ c.returns (λ r t q. keep c.now r (ground arith) q) h

  in_transaction :
      {A : Type 0} (m : Exec Counter A) → Keeps Rows m → Keeps Rows (transaction undo m)
  in_transaction m h = Keeps-transaction undo m (λ s s' before after. before) h

  ask-Rows :
      (uuid : ℕ) (req : ReturnRequest) (ctx : AuthContext)
      → Keeps Rows (request_rows uuid req ctx)
      → Keeps Rows (returns_request uuid req ctx)
  unfolding returns_request
  ask-Rows uuid req ctx rows = Keeps-bind _ _ (perm-Rows ctx.role ctx req) (λ _.
      Keeps-bind _ _ (in_transaction _ rows)
        (λ r. Keeps-bind _ _ (notify-Rows uuid) (λ _. Keeps-pure r)))

  accept-Rows : (id : ℕ) (ctx : AuthContext) → Keeps Rows (returns_approve id ctx)
  unfolding returns_approve
  accept-Rows id ctx =
      let rows =
        in_transaction _
          (decide_rows-Rows id set_approved ctx ReturnAction.approve k.at_approval) in
      Keeps-bind _ _ (Keeps-raise_if _ _) (λ _. Keeps-bind _ _ rows (λ _. notify-Rows id))

  refuse-Rows :
      (id : ℕ) (reason : String) (ctx : AuthContext) → Keeps Rows (returns_reject id reason ctx)
  unfolding returns_reject
  refuse-Rows id reason ctx = Keeps-bind _ _ (Keeps-raise_if _ _) (λ _.
      in_transaction _
        (decide_rows-Rows id (set_rejected reason) ctx ReturnAction.reject (k.at_rejection reason)))

  serve-Rows :
      (ctx : AuthContext) (r : Request) (c : Counter)
      → Fits Q (ctx, r)
      → Rows c
      → Rows (serve ctx r c)
  unfolding serve
  serve-Rows ctx (ask uuid req) c new h =
      (ask-Rows uuid req ctx (request_rows-Rows uuid req ctx new)).at c h
  serve-Rows ctx (accept id) c new h = (accept-Rows id ctx).at c h
  serve-Rows ctx (refuse id reason) c new h = (refuse-Rows id reason ctx).at c h

  serve_all-Rows :
      (rs : List (AuthContext × Request)) (c : Counter)
      → All (Fits Q) rs
      → Rows c
      → Rows (serve_all rs c)
  unfolding serve_all
  serve_all-Rows [] c new h = h
  serve_all-Rows ((ctx, r) ∷ rs) c new h =
      serve_all-Rows rs (serve ctx r c) new.1 (serve-Rows ctx r c new.0 h)

IsConsistent-IsKept : IsKept IsConsistent
IsConsistent-IsKept = record {
  at_approval = λ now r h q. ground arith;
  at_rejection = λ reason now r h q. ground arith;
}

-- The row with this id is the given one.
abbrev pub IsFrozen : Return → Return → Type 0
IsFrozen done r = r.return_id ≡ done.return_id → r ≡ done

still_pending :
    (done r : Return) → is_pending done.status ≡ false → is_pending r.status ≡ true → r ≢ done
still_pending done r h k e = cc (ap (λ (x : Return). is_pending x.status) e)

IsFrozen-IsKept : (done : Return) → is_pending done.status ≡ false → IsKept (IsFrozen done)
IsFrozen-IsKept done closed = record {
  at_approval = λ now r h q e. absurd (still_pending done r closed h (q e));
  at_rejection = λ reason now r h q e. absurd (still_pending done r closed h (q e));
}

-- A request that does not use this id for a new return.
abbrev pub IsFresh : ℕ → AuthContext × Request → Type 0
IsFresh id (ctx, ask uuid req) = uuid ≢ id
IsFresh id (ctx, accept i) = Unit
IsFresh id (ctx, refuse i reason) = Unit

fresh-Fits :
    (done : Return) (rs : List (AuthContext × Request))
    → All (IsFresh done.return_id) rs
    → All (Fits (IsFrozen done)) rs
fresh-Fits done [] h = tt
fresh-Fits done ((ctx, ask uuid req) ∷ rs) h = ((λ now e. absurd (h.0 e)), fresh-Fits done rs h.1)
fresh-Fits done ((ctx, accept i) ∷ rs) h = (tt, fresh-Fits done rs h.1)
fresh-Fits done ((ctx, refuse i reason) ∷ rs) h = (tt, fresh-Fits done rs h.1)

IsConsistent-Fits : (rs : List (AuthContext × Request)) → All (Fits IsConsistent) rs
IsConsistent-Fits [] = tt
IsConsistent-Fits ((ctx, ask uuid req) ∷ rs) =
    ((λ now. record { approval = refl; rejection = refl; explained = refl }), IsConsistent-Fits rs)
IsConsistent-Fits ((ctx, accept i) ∷ rs) = (tt, IsConsistent-Fits rs)
IsConsistent-Fits ((ctx, refuse i reason) ∷ rs) = (tt, IsConsistent-Fits rs)

-- After any requests, every return has a time of approval exactly if it is approved, and a time of
-- rejection and a reason for it exactly if it is rejected, if this held of every return at first.
pub serve_all-IsConsistent_returns :
    (rs : List (AuthContext × Request)) (c : Counter)
    → All IsConsistent c.returns
    → All IsConsistent (serve_all rs c).returns
serve_all-IsConsistent_returns rs c h =
    serve_all-Rows IsConsistent IsConsistent-IsKept rs c (IsConsistent-Fits rs) h

-- A return that is approved or rejected is never changed again by any requests that do not give
-- its id to a new return, if it is the only one with the id.
pub serve_all_processed :
    (done : Return) (rs : List (AuthContext × Request)) (c : Counter)
    → is_pending done.status ≡ false
    → All (IsFresh done.return_id) rs
    → All (IsFrozen done) c.returns
    → All (IsFrozen done) (serve_all rs c).returns
serve_all_processed done rs c closed fresh h =
    serve_all-Rows (IsFrozen done) (IsFrozen-IsKept done closed) rs c (fresh-Fits done rs fresh) h
