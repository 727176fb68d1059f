-- ===== src/Conditioning.antt =====
-- `context_agent/core/retrieval/task_conditioning.py`: the scores, and the order that they give.
mod Scores
mod Order
unfoldable pub use Scores.{conditioned_score}
unfoldable pub use Order.{rescore, apply_task_conditioning}
pub use Order.{
  lower_score, IsConditioned, apply_task_conditioning-IsConditioned, length-apply_task_conditioning,
  All-apply_task_conditioning, Pairwise-apply_task_conditioning, Descending-apply_task_conditioning,
}
