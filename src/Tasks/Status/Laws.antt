-- ===== src/Tasks/Status/Laws.antt =====
-- The laws of task statuses: the wire names and the status machine.
use cpp_mcp_sdk.Base.{some, ◌≡◌, refl, ◌↔◌, true, false, arith, String, String-discrete}
use cpp_mcp_sdk.Tasks.Status.{
  TaskStatus, working, input_required, completed, failed, cancelled, to_string,
  task_status_from_string, is_terminal_task_status, is_valid_task_status_transition, Transition,
  pause, resume, finish,
}

-- A valid step never leaves a terminal status.
pub active_of_valid :
    (from to : TaskStatus)
    → is_valid_task_status_transition from to ≡ true
    → is_terminal_task_status from ≡ false
unfolding is_valid_task_status_transition
active_of_valid from to h = ground arith

task_status_from_string-to_string :
    (status : TaskStatus) → task_status_from_string (to_string status) ≡ some status
unfolding task_status_from_string to_string String-discrete
task_status_from_string-to_string working = refl
task_status_from_string-to_string input_required = refl
task_status_from_string-to_string completed = refl
task_status_from_string-to_string failed = refl
task_status_from_string-to_string cancelled = refl

name_of_status :
    (name : String) (status : TaskStatus)
    → task_status_from_string name ≡ some status
    → name ≡ to_string status
unfolding task_status_from_string to_string
name_of_status name working h = ground arith
name_of_status name status h = ground arith

-- A text parses to a status exactly when it is the wire name of that status.
pub task_status_from_string_iff :
    (name : String) (status : TaskStatus)
    → (task_status_from_string name ≡ some status) ↔ (name ≡ to_string status)
task_status_from_string_iff name status =
    (name_of_status name status, λ e. rw e (task_status_from_string-to_string status))

Transition-of_valid :
    (from to : TaskStatus) → is_valid_task_status_transition from to ≡ true → Transition from to
unfolding is_valid_task_status_transition
Transition-of_valid working input_required h = pause
Transition-of_valid input_required working h = resume
Transition-of_valid from to h = finish from to (active_of_valid from to h) (ground arith)

pub valid_of_Transition :
    {from to : TaskStatus} → Transition from to → is_valid_task_status_transition from to ≡ true
unfolding is_valid_task_status_transition
valid_of_Transition pause = refl
valid_of_Transition resume = refl
valid_of_Transition (finish from to active final) = ground arith

-- The code accepts exactly the steps of the status machine: between `working` and
-- `input_required`, and from a status that is not terminal to a terminal one.
pub is_valid_task_status_transition_iff :
    (from to : TaskStatus) → (is_valid_task_status_transition from to ≡ true) ↔ Transition from to
is_valid_task_status_transition_iff from to = (Transition-of_valid from to, valid_of_Transition)
