-- ===== src/Users.antt =====
-- frontend/src/mystic_auth/users: what the user screens compute, apart from rendering.
pub mod AccessRows
pub mod AccessHandlers
pub mod AccessDialog
pub mod Filters
pub mod Page
