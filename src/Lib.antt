-- ===== src/Lib.antt =====
-- Verification library of pelican-mc-router: a service that discovers the Minecraft servers of a
-- Pelican panel, plans a route for each, and reconciles a router (mc-router over HTTP, or Infrared by
-- configuration files) with the plan.
--
-- Parts, and the code that they model (paths from the repository's root):
--
-- - Models: backend/pkg/models/server.go and Policy of backend/internal/routepolicy/policy.go.
-- - Discovery: backend/internal/discovery. `Discovery.Service.discover` is `Discover`, with its loops
--   `load_allocations` and `collect`, the classifier and the mapper.
-- - Pelican: `Pagination.list_all` is `listAll` of backend/internal/pelican/pagination.go.
-- - Router: backend/internal/router. `Router.Label` and `Router.Hostname` are the normalisation of
--   names in router.go and planner.go, `Router.Planner.plan` is `Plan`, `Router.Service.routes` is
--   `Routes`, `Router.Synchronizer.sync_with_result` is `SyncWithResult`. `Router.Planner.Spec` says
--   without loops what a plan is.
-- - McRouter: backend/internal/router/mcrouter/controller.go. `reconcile_with_result` is
--   `ReconcileWithResult`; `McRouter.Controller.Server` holds the laws of a server that the client
--   talks to, for any host name. `McRouter.Client` is client.go: `Rest` says what it gives of those laws,
--   where a host name that `path.Join` would change ("a/../b") is left out of the deletions.
--   `McRouter.Planned` joins planner and controller.
-- - Infrared: backend/internal/router/infrared. `Renderer` is `Render` and `proxyFilename`, `Files` the
--   file system and `writeFileAtomic`, `Controller` is `ReconcileChanges`, `Reloading` the pending reload
--   of reloading_controller.go, `Marker` is marker_reloader.go; `Infrared.Planned` joins planner and
--   controller.
-- - Runtime: backend/internal/runtime. `Status` is the tracker of reconciliation_status.go; `Build`,
--   `Refresh` and `Activate` are refresh_task.go, with the manager of manager.go and the settings of
--   backend/internal/settings/settings.go; `Inventory` is inventory.go.
-- - Retry: `Do` of backend/internal/retry/http.go.
-- - Storage: the database that the stores call; `Migrate` is backend/internal/storage/sqlite/migrate.go and
--   `Connect` is db.go beside it. `Settings.Store` is the store of
--   backend/internal/settings/store.go, `RoutePolicy.Store` the one of
--   backend/internal/routepolicy/store.go, and `History` the ones of backend/internal/actionhistory
--   (`Actions`) and backend/internal/operationalhistory (`Operations`): one function per method.
-- - Setup: `Service` is backend/internal/setup/service.go over its interfaces, `Stored` the service as
--   backend/internal/app/app.go puts it together with the settings store and the refresh task, and
--   `Durable` follows a setup through all three.
-- - Secrets: `Read` and `ValidName` of backend/internal/secretfile/reader.go.
-- - Access: `Limiter` is backend/internal/actioncontrol/limiter.go, `Bearer` the authorizers of
--   backend/internal/dashboardauth/auth.go and backend/internal/bootstrap/authorizer.go.
-- - Config: backend/pkg/config, with `Validate` for validate.go. `App` is
--   backend/internal/app/router_controller.go: the controller of the configured router.
-- - Http: backend/internal/http. `Server` holds the services and what handlers share, `Authorize` the
--   wrappers, `Policies`, `Histories`, `Settings`, `Dashboard` and `Reading` the handlers, and `Routes` the
--   table of routes. `Readiness` also has backend/internal/dashboard/read_model.go.
-- - Prelude and Text: what the parts share, Go's strings and paths, and the address syntax they test.
-- - Tests: the definitions run on concrete inputs, and the theorems at inputs that meet their
--   hypotheses.
--
-- How the parts interact: a refresh builds services from the stored settings, lets discovery fill the
-- inventory, and synchronizes: the service plans routes from discovery and policies, and the controller
-- of the configured router makes them so. An activation does the same for candidate settings, persists
-- them and publishes the services, or compensates. The setup service validates what a request asks for
-- and hands it to an activation, whose persistence is the settings store; the handlers authorize a
-- request, call a service and record the action in the history.
--
-- Conventions. Code with effects takes and returns a world `W`, and what it calls of other services
-- (HTTP clients, stores, files, the context, clocks) is a field of a record of actions on `W`; nothing
-- is assumed of them but what a theorem's hypotheses say. A mutex makes an operation one step.
-- Errors are values: one constructor per place that wraps an error. Texts are lists of code points
-- (invalid UTF-8 is not modelled); the Unicode tables for case and space are the parameter `Unicode`,
-- known on ASCII only. Go's `int` is the type `ℤ` where a sign matters: no value comes near its bounds.
-- Durations are natural numbers of nanoseconds. Maps are association lists; where Go's order of
-- iteration could matter, the code sorts first, and so does the model.
--
-- A store is modelled over its tables as values. A database carries `faults`, the errors of the calls of
-- the driver to come: any call may fail, a transaction that is not committed is rolled back, and once the
-- list is empty all calls succeed. A statement does what SQL documents, CHECKs and keys included; the
-- time stamps of rows are left out, and foreign keys are not enforced, as SQLite does by default. What a
-- script of a migration does is a parameter that acts on the database less the table of migrations.
-- A request of the API is the values that its handlers read, a reply the values that they write.
--
-- Loops are structural recursion on what they range over. Four have fuel: the retry loop has as much
-- as it makes attempts; a listing has one more than the largest number of pages that is reported; the
-- parser of IPv6 groups has 8, the groups of an address; the printing of a number has one more than the
-- number, which has fewer digits.
--
-- Not modelled: the requests of the Pelican client, loading of the configuration, the scheduler, the
-- shutdown and the process start, the metrics and the log. SQLite, chi, the OpenID Connect library, JSON,
-- HTML templates and YAML (a parameter of `render`) are other packages' code: the parts above take what
-- they use of them as parameters, or as the values that are read and written.
pub mod Prelude
pub mod Text
pub mod Models
pub mod Router
pub mod McRouter
pub mod Infrared
pub mod Discovery
pub mod Pelican
pub mod Retry
pub mod Runtime
pub mod Storage
pub mod Settings
pub mod Setup
pub mod RoutePolicy
pub mod History
pub mod Secrets
pub mod Access
pub mod Config
pub mod App
pub mod Http
mod Tests
