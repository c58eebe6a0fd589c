-- ===== src/Ui.antt =====
-- frontend/src/mystic_auth/ui: what the widgets compute, apart from rendering.
pub mod Selection
pub mod Toaster
pub mod Cooldown
pub mod Preferences
pub mod Undo
