-- ===== src/Api.antt =====
-- The HTTP routes: cloud/api/routes.py.
pub mod Window
pub mod Routes
