-- ===== src/Http.antt =====
-- http/http_routes.py: FastAPI routes and handler parameters, from the syntax tree alone.
pub mod RoutePath
pub mod RouteLaws
pub mod Parameters
pub mod Routers
pub mod Kinds
pub mod Endpoints
pub mod RouteKeys
