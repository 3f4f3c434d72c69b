-- ===== src/Tasks/Status.antt =====
-- include/mcp/util/task_status.hpp and the functions on statuses in src/util/tasks.cpp.
pub mod Laws
use cpp_mcp_sdk.Base.{
  String, Bool, true, false, not, ◌&&◌, ◌||◌, Option, none, some, if◌then◌else◌, ◌=ₛ◌, ◌≡◌, refl,
  arith, holds, ◌⊎◌, ◌↔◌,
}

pub data TaskStatus : Type 0 where
  working input_required completed failed cancelled : TaskStatus

unfoldable pub TaskStatus-discrete : Discrete TaskStatus
TaskStatus-discrete = hlevel

infix 50 ◌=ₜ◌
abbrev pub ◌=ₜ◌ : TaskStatus → TaskStatus → Bool
a =ₜ b = holds (TaskStatus-discrete a b)

unfoldable pub to_string : TaskStatus → String
to_string working = "working"
to_string input_required = "input_required"
to_string completed = "completed"
to_string failed = "failed"
to_string cancelled = "cancelled"

unfoldable pub task_status_from_string : String → Option TaskStatus
task_status_from_string status =
    if status =ₛ "working"
    then some working
    else if status =ₛ "input_required"
    then some input_required
    else if status =ₛ "completed"
    then some completed
    else if status =ₛ "failed"
    then some failed
    else if status =ₛ "cancelled"
    then some cancelled
    else none

unfoldable pub is_terminal_task_status : TaskStatus → Bool
unfolding TaskStatus-discrete
is_terminal_task_status status = status =ₜ completed || status =ₜ failed || status =ₜ cancelled

unfoldable pub is_valid_task_status_transition : TaskStatus → TaskStatus → Bool
unfolding is_terminal_task_status TaskStatus-discrete
is_valid_task_status_transition from target =
    if is_terminal_task_status from
    then false
    else if from =ₜ working
    then target =ₜ input_required || target =ₜ completed || target =ₜ failed || target =ₜ cancelled
    else if from =ₜ input_required
    then target =ₜ working || target =ₜ completed || target =ₜ failed || target =ₜ cancelled
    else false

-- The status machine as a relation.
pub data Transition : TaskStatus → TaskStatus → Type 0 where
  pause : Transition working input_required
  resume : Transition input_required working
  finish :
      (from to : TaskStatus)
      → is_terminal_task_status from ≡ false
      → is_terminal_task_status to ≡ true
      → Transition from to
