-- ===== src/Exposure.antt =====
-- `context_agent/core/context/exposure_controller.py`: what a policy lets through to the model.
mod Gates
mod Views
pub use Gates.{Permitted, is_allowed_iff}
pub use Views.{visible_items-apply, apply_exact, apply_default}
unfoldable pub use Gates.{is_allowed}
unfoldable pub use Views.{apply, get_default_policy}
