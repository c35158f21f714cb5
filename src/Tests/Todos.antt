-- ===== src/Tests/Todos.antt =====
-- The todo tool of internal/engine/tools.go at concrete calls.
use ergo_agent.Prelude.{ℕ, arith, String, false, ◌≡◌, refl, some, none, [], ◌∷◌, ◌+◌, ◌-◌, ◌^◌}
use ergo_agent.Prelude.Int.{pos, negsuc, ◌+ℤ◌}
use ergo_agent.Json.{plain, Value, null, str, obj, field, end}
use ergo_agent.Message.{Message, zero_message}
use ergo_agent.Message.Codec.{members}
use ergo_agent.Session.{Session, by_id, branch}
use ergo_agent.Controls.{append_message}
use ergo_agent.Pipeline.{ToolResult, text_result}
use ergo_agent.Todo.{
  Todos, answered, todo, act, from_one, input_member, todo_reply, todo_details, show_int,
  restore_todos, truncated, whole_float, bits,
}
use ergo_agent.Todo.Numbered.{IsNumbered, todo-IsNumbered}
use ergo_agent.Todo.Restored.{outcome_fields, restore_todos-todo}

abbrev add_milk : Value
add_milk = obj (field "action" (str "add") (field "text" (str "milk") end))

abbrev fresh_todos : Todos
fresh_todos = record { todos = none; next_todo = pos 0 }

abbrev milk : Todos
milk = record {
  todos = some (record { id = pos 1; text = "milk"; done = false } ∷ []);
  next_todo = pos 2;
}

abbrev milk_answer : ToolResult
milk_answer = record (text_result "[ ] #1: milk") { details = some (todo_details "add" milk) }

abbrev milk_is_numbered : IsNumbered milk
milk_is_numbered = (2, refl, (1, refl, omega arith, omega arith))

milk_added : todo add_milk fresh_todos ≡ (milk, answered milk_answer)
unfolding todo act input_member members todo_reply show_int ◌+ℤ◌
milk_added = refl

-- The next number is read as a float: 2 ^ 53 + 1 is 2 ^ 53, and 2.5 and -2.5 are cut.
next_numbers :
    (truncated (record { mantissa = pos (2 ^ 53 + 1); scale = 0; form = plain }) ≡ pos (2 ^ 53))
    × (truncated (record { mantissa = pos 25; scale = 1; form = plain }) ≡ pos 2)
    × (truncated (record { mantissa = negsuc 24; scale = 1; form = plain }) ≡ negsuc 1)
unfolding whole_float bits
next_numbers = (refl, refl, refl)

-- The next number wraps around behind the largest int.
wrapped_number :
    (todo add_milk (record milk { next_todo = pos (2 ^ 63 - 1) })).0.next_todo ≡ negsuc (2 ^ 63 - 1)
unfolding todo act input_member members ◌+ℤ◌
wrapped_number = refl

todo-IsNumbered_example : IsNumbered (from_one (todo add_milk fresh_todos).0)
todo-IsNumbered_example = todo-IsNumbered add_milk fresh_todos (1, refl, omega arith) (omega arith)

abbrev encode_nothing : Message → Value
encode_nothing m = null

abbrev entry_of : ℕ → String × String
entry_of n = ("e1", "now")

abbrev no_session : Session
no_session = record { entries = []; leaf_id = "" }

restore_todos-todo_example :
    restore_todos (
      branch (
        append_message encode_nothing entry_of zero_message
          (outcome_fields milk_answer)
          no_session))
    ≡ milk
unfolding by_id
restore_todos-todo_example =
    restore_todos-todo encode_nothing entry_of zero_message no_session add_milk fresh_todos milk
      milk_answer milk_is_numbered (omega arith) milk_added refl refl
