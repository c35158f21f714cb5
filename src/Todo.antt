-- ===== src/Todo.antt =====
-- The todo tool of internal/engine/tools.go, and restoreTodos of internal/engine/runtime.go. The
-- names of arguments are matched exactly.
pub mod Numbered
pub mod Restored
use Prim.Native.String.{◌++◌ as append}
use ergo_agent.Prelude.{
  ℕ, zero, suc, ◌+◌, ◌-◌, ◌*◌, ◌/◌, ◌%◌, ◌^◌, ltb, leb, String, Bool, true, false, not, ◌&&◌,
  Option, none, some, List, [], ◌∷◌, ◌++◌, ◌==◌, eqb, if◌then◌else◌, value_or, bind,
}
use ergo_agent.Prelude.Int.{ℤ, pos, negsuc, pos_part, neg_part, sub_ℕ, ◌+ℤ◌, int64}
use ergo_agent.Prelude.Text.{decimal, join}
use ergo_agent.Json.{
  Number, Value, null, bool, num, str, arr, obj, Items, nil, cons, Fields, end, field, get, is_text,
}
use ergo_agent.Message.Codec.{text_over, bool_over, int64_over, struct_of, integer}
use ergo_agent.Session.{Entry}
use ergo_agent.Pipeline.{ToolResult, text_result}

pub record Todo : Type 0 where
  pub id : ℤ
  pub text : String
  pub done : Bool

-- The fields `todos` and `nextTodo` of the tools; a nil slice is `none`.
pub record Todos : Type 0 where
  pub todos : Option (List Todo)
  pub next_todo : ℤ

pub record TodoInput : Type 0 where
  pub action : String
  pub text : String
  pub id : ℤ

pub data TodoError : Type 0 where
  bad_input text_required : TodoError
  not_found : ℤ → TodoError
  unknown_action : String → TodoError

pub data TodoReply : Type 0 where
  failed : TodoError → TodoReply
  answered : ToolResult → TodoReply

unfoldable pub input_member : String → Value → TodoInput → Option TodoInput
input_member k v p =
    if k == "action"
    then bind (text_over v p.action) (λ s. some (record p { action = s }))
    else if k == "text"
    then bind (text_over v p.text) (λ s. some (record p { text = s }))
    else if k == "id"
    then bind (int64_over v p.id) (λ n. some (record p { id = n }))
    else some p

abbrev pub no_input : TodoInput
no_input = record { action = ""; text = ""; id = pos 0 }

abbrev pub eq_int : ℤ → ℤ → Bool
eq_int (pos a) (pos b) = eqb a b
eq_int (negsuc a) (negsuc b) = eqb a b
eq_int _ _ = false

unfoldable pub toggle : ℤ → List Todo → List Todo
toggle id [] = []
toggle id (t ∷ todos) =
    (if eq_int t.id id then record t { done = not t.done } else t) ∷ toggle id todos

unfoldable pub has_todo : ℤ → List Todo → Bool
has_todo id [] = false
has_todo id (t ∷ todos) = let rest = has_todo id todos in if eq_int t.id id then true else rest

-- strconv.Itoa
unfoldable pub show_int : ℤ → String
show_int (pos n) = decimal n
show_int (negsuc n) = append "-" (decimal (suc n))

abbrev pub show_todo : Todo → String
show_todo t =
    append (append (append (append "[" (if t.done then "x" else " ")) "] #") (show_int t.id))
      (append ": " t.text)

abbrev pub show_todos : List Todo → List String
show_todos [] = []
show_todos (t ∷ todos) = show_todo t ∷ show_todos todos

abbrev pub lines_or_none : List String → List String
lines_or_none [] = "No todos" ∷ []
lines_or_none (l ∷ lines) = l ∷ lines

-- json.Marshal of the list, as an entry holds it.
unfoldable pub todo_value : Todo → Value
todo_value t =
    obj (field "id" (integer t.id) (field "text" (str t.text) (field "done" (bool t.done) end)))

unfoldable pub todo_items : List Todo → Items
todo_items [] = nil
todo_items (t ∷ todos) = cons (todo_value t) (todo_items todos)

abbrev pub todos_value : Option (List Todo) → Value
todos_value none = null
todos_value (some todos) = arr (todo_items todos)

unfoldable pub todo_details : String → Todos → Fields
todo_details action t =
    field "action" (str action)
      (field "todos" (todos_value t.todos) (field "nextId" (integer t.next_todo) end))

unfoldable pub todo_reply : String → Todos → TodoReply
todo_reply action t =
    answered (record (text_result (join "\n" (lines_or_none (show_todos (value_or [] t.todos))))) {
      details = some (todo_details action t);
    })

abbrev pub from_one : Todos → Todos
from_one t = if eq_int t.next_todo (pos 0) then record t { next_todo = pos 1 } else t

abbrev pub with_todo : String → Todos → Todos
with_todo text t = record {
  todos = some (value_or [] t.todos ++ record { id = t.next_todo; text = text; done = false } ∷ []);
  next_todo = int64 (t.next_todo +ℤ pos 1);
}

abbrev pub with_toggled : ℤ → Todos → Todos
with_toggled id t = record t { todos = some (toggle id (value_or [] t.todos)) }

abbrev pub no_todos : Todos
no_todos = record { todos = none; next_todo = pos 1 }

abbrev pub todo_answer : String → Todos → Todos × TodoReply
todo_answer action t = (t, todo_reply action t)

unfoldable pub act : TodoInput → Todos → Todos × TodoReply
act p t =
    if p.action == "add"
    then if p.text == ""
      then (t, failed text_required)
      else todo_answer p.action (with_todo p.text t)
    else if p.action == "toggle"
    then if has_todo p.id (value_or [] t.todos)
      then todo_answer p.action (with_toggled p.id t)
      else (t, failed (not_found p.id))
    else if p.action == "clear"
    then todo_answer p.action no_todos
    else if p.action == "list"
    then todo_answer p.action t
    else (t, failed (unknown_action p.action))

abbrev pub act_on : Option TodoInput → Todos → Todos × TodoReply
act_on none t = (t, failed bad_input)
act_on (some p) t = act p (from_one t)

-- The tool at the arguments of a call.
unfoldable pub todo : Value → Todos → Todos × TodoReply
todo raw t = act_on (struct_of input_member no_input raw) t

-- The number of binary digits, for numbers below 2 ^ fuel.
unfoldable pub bits : ℕ → ℕ → ℕ
bits zero n = 0
bits (suc fuel) n = let rest = bits fuel (n / 2) in if eqb n 0 then 0 else suc rest

-- The quotient, rounded to the nearest number, and to the even one when there are two.
abbrev pub round_quotient : ℕ → ℕ → ℕ
round_quotient a b =
    let q = a / b in
    let r = a % b in if ltb (2 * r) b then q else if ltb b (2 * r) then q + 1 else q + q % 2

-- The whole part of the float64 that is nearest to a / b, below 2 ^ 64: 53 binary digits are kept.
unfoldable pub whole_float : ℕ → ℕ → ℕ
whole_float a b =
    let n = bits 64 (a / b) in
    if ltb (a / b) (2 ^ 53)
    then round_quotient (a * 2 ^ (53 - n)) b / 2 ^ (53 - n)
    else round_quotient a (b * 2 ^ (n - 53)) * 2 ^ (n - 53)

-- int(value) of the float64 that a number is read as. Go leaves open what a float out of the range
-- of int becomes; here it is the least int, as on amd64.
abbrev pub truncated : Number → ℤ
truncated n =
    let up = whole_float (pos_part n.mantissa) (10 ^ n.scale) in
    let down = whole_float (neg_part n.mantissa) (10 ^ n.scale) in
    if ltb up (2 ^ 63) && leb down (2 ^ 63) then sub_ℕ up down else negsuc (2 ^ 63 - 1)

-- json.Unmarshal goes on after a member of another type, and leaves what it decodes into.
unfoldable pub todo_member : String → Value → Todo → Todo
todo_member k v t =
    if k == "id"
    then record t { id = value_or t.id (int64_over v t.id) }
    else if k == "text"
    then record t { text = value_or t.text (text_over v t.text) }
    else if k == "done"
    then record t { done = value_or t.done (bool_over v t.done) }
    else t

unfoldable pub todo_members : Fields → Todo → Todo
todo_members end t = t
todo_members (field k v fs) t = todo_members fs (todo_member k v t)

abbrev pub zero_todo : Todo
zero_todo = record { id = pos 0; text = ""; done = false }

abbrev pub decode_todo : Value → Todo → Todo
decode_todo (obj fs) old = todo_members fs old
decode_todo _ old = old

-- The elements are decoded over those of the old slice; behind its length they are taken as zero.
unfoldable pub decode_todos : Items → List Todo → List Todo
decode_todos nil old = []
decode_todos (cons v vs) [] = decode_todo v zero_todo ∷ decode_todos vs []
decode_todos (cons v vs) (t ∷ old) = decode_todo v t ∷ decode_todos vs old

abbrev pub todos_over : Value → Option (List Todo) → Option (List Todo)
todos_over null old = none
todos_over (arr vs) old = some (decode_todos vs (value_or [] old))
todos_over _ old = old

abbrev pub next_over : Option Value → ℤ → ℤ
next_over (some (num n)) old = truncated n
next_over _ old = old

abbrev pub restored_from : Option Value → Todos → Todos
restored_from (some (obj details)) t = record {
  todos = todos_over (value_or null (get "todos" details)) t.todos;
  next_todo = next_over (get "nextId" details) t.next_todo;
}
restored_from _ t = t

-- The body of the loop of restoreTodos.
unfoldable pub restore_todo : Entry → Todos → Todos
restore_todo e t =
    if is_text (get "type" e) "message" && is_text (get "toolName" e) "todo"
    then restored_from (get "details" e) t
    else t

unfoldable pub restore_each : List Entry → Todos → Todos
restore_each [] t = t
restore_each (e ∷ entries) t = restore_each entries (restore_todo e t)

unfoldable pub restore_todos : List Entry → Todos
unfolding restore_each
restore_todos entries = restore_each entries (record { todos = some []; next_todo = pos 1 })
