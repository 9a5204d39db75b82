-- ===== src/Lib.antt =====
-- BookFlow: the services that move books between warehouses and stores.
--
-- Parts and how they interact. decision-svc proposes orders in the table `pending_orders`.
-- intervention-svc carries an order through its states: both parties approve it, the source dispatches
-- it, the target receives it, or someone rejects it. Each step is one transaction on the tables of
-- that service, and where copies leave or reach a shelf it sends an HTTP request to inventory-svc with
-- the caller's token. inventory-svc is the single writer of stock, with a transaction of its own that
-- the other service cannot roll back. Approving a transfer to a warehouse or an order from a publisher
-- also inserts the orders that distribute the quantity over the stores of the region. Once a day
-- decision-svc plans all books at once. Beside the state machine, older endpoints of intervention-svc
-- write the same table: approvals one by one and in batches, arrivals, and orders that headquarters
-- places ahead of demand. The services tell notification-svc what happened, which writes mails by way
-- of Logic Apps. publisher-watcher takes in the requests that publishers make for new books.
--
-- Files. A handler is a function from the state to a result and a state (Exec); what it wrote before a
-- raise is still there, and `transaction` undoes what the service's own database holds.
--   Prelude, Prelude/*   tests, signed integers and lists over native numbers
--   Sql                  SELECT and UPDATE over a table that is a list of rows
--   Exec, Exec/Keeps     handlers, and the rules for their invariants
--   Auth, Locations      AuthContext of eks-pods/intervention-svc/src/auth.py; the table `locations`
--   Inventory, Inventory/*      eks-pods/inventory-svc/src/routes/inventory.py: _check_inventory_read_scope,
--                               _check_inventory_write_perm, adjust, reserve
--   Orders               the tables of intervention-svc and what surrounds a request
--   InventoryClient      _call_inventory_adjust of eks-pods/intervention-svc/src/state_machine.py
--   Chained, Chained/*   _forecast_split and _trigger_chained_wh_to_store of the same file
--   Authority, Authority/*      eks-pods/intervention-svc/src/authority.py
--   Approvals, Approvals/*      _infer_side and the approvals of _to_approved in state_machine.py
--   StateMachine, StateMachine/*   the transitions of state_machine.py, named as there without the `_`
--   OrderRoutes, OrderRoutes/*     the endpoints of eks-pods/intervention-svc/src/routes/orders.py
--   AutoExecute, AutoExecute/*     eks-pods/intervention-svc/src/cron/auto_execute.py
--   Inventory/Cleanup, Inventory/Cleanup/*   eks-pods/inventory-svc/src/cron/reservation_cleanup.py
--   Planner, Planner/*   _build_daily_plan and POST /decision/plan-daily of the file of Decision
--   Interventions, Interventions/*   eks-pods/intervention-svc/src/routes/intervention.py: approve, reject,
--                        intervene_batch, approve_all_today, edit_pending_order and their helpers
--   History, History/*   requests of every kind to intervention-svc that write an order which is there
--   Returns, Books, Preorders, Inbound and their children   the endpoints of the same file under /returns,
--                        /books, /new-book-requests and /spike-events, and /inbound
--   Notifications, Notifications/*   eks-pods/notification-svc/src: recipients.py, /notification/send of
--                        routes/notification.py, and _flush_inbound_rejected of main.py
--   Watcher, Watcher/*   eks-pods/publisher-watcher/src/poll.py
--   Decision, Decision/* POST /decision/decide and its batch, of eks-pods/decision-svc/src/routes/decision.py
--   Examples, Examples/* runs on a small company
--
-- Bounds. The loop of `call_inventory_adjust` has two attempts, as `range(2)` says; a cleanup takes
-- 1000 reservations at most, its `BATCH_SIZE`; the `while` of the planner has a turn for each short
-- location, which is enough (Planner/Turns); every other loop runs over the rows that a query
-- returned. Numbers are unbounded: the columns are integers that the database checks, and none of
-- these operations wraps.
--
-- Parameters. The answers of Redis and Logic Apps to notification-svc are part of each step. Ids that
-- the database or `uuid4` generate, quotients of floats, and the fate of each HTTP request on the
-- network are arguments or part of the state; so are the rounding of demand sums and the rank of an
-- urgency in an ORDER BY. A text that is only compared or stored is a number or a constructor.
--
-- The CHECKs of `pending_orders`, which state_machine.py documents, are tested where neither a WHERE
-- clause nor a guard before the UPDATE asks for the status (Interventions/Checks). Elsewhere they are not
-- written out.
--
-- Not modelled. Queries for pages (dashboard-svc, the calendar and the queue), the texts of mails, the
-- path of an event from the services to notification-svc (there, only that it is sent), the flag in
-- Redis by which the end of a day's approvals is told once, token parsing, forecasts themselves, the
-- simulators, Glue jobs and mocks. Requests run one at a time: row locks make each transaction atomic,
-- and two transactions at once are not told apart from one after the other.
pub mod Prelude
pub mod Sql
pub mod Exec
pub mod Auth
pub mod Locations
pub mod Inventory
pub mod Orders
pub mod InventoryClient
pub mod Chained
pub mod Authority
pub mod Approvals
pub mod StateMachine
pub mod OrderRoutes
pub mod AutoExecute
pub mod Decision
pub mod Notifications
pub mod Watcher
pub mod History
pub mod Planner
pub mod Interventions
pub mod Preorders
pub mod Inbound
pub mod Returns
pub mod Books
pub mod Examples
