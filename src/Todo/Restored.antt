-- ===== src/Todo/Restored.antt =====
-- What restoreTodos of internal/engine/runtime.go reads of the answers of the todo tool.
use native.Mathlib.Nat.{mul-div_cancel, one-le-pow}
use ergo_agent.Prelude.{
  ℕ, suc, ◌-◌, ◌*◌, ◌/◌, ◌<◌, ◌≤◌, ◌^◌, String, true, false, ◌≡◌, refl, ap, ◌∙◌, Option, some, none,
  List, [], ◌∷◌, ◌++◌, ◌==◌, ltb, value_or, arith, Bool-cases, inl, inr, length, subst,
}
use ergo_agent.Prelude.Int.{pos}
use ergo_agent.Json.{plain, Value, obj, str, Fields, end, field, get, put, put_all}
use ergo_agent.Message.{Message}
use ergo_agent.Message.Codec.{struct_of, in_int64}
use ergo_agent.Session.{Entry, by_id, Session, branch, base_entry, new_entry}
use ergo_agent.Session.Append.{branch_from_leaf, branch-append_entry}
use ergo_agent.Controls.{append_message}
use ergo_agent.Pipeline.{ToolResult}
use ergo_agent.Agent.Tools.{details_value}
use ergo_agent.Todo.{
  Todo, Todos, TodoInput, TodoReply, failed, answered, no_todos, act, act_on, todo, todo_reply,
  todo_details, todo_value, todo_items, todos_value, truncated, todo_member, todo_members, bits,
  round_quotient, whole_float, zero_todo, decode_todo, decode_todos, todos_over, restored_from,
  restore_todo, restore_each, restore_todos, has_todo, todo_answer, input_member, no_input,
  with_todo, with_toggled,
}
use ergo_agent.Todo.Numbered.{Rising, IsNumbered, Rising-le, either}

decode_todo-todo_value :
    (t old : Todo) (k : ℕ)
    → t.id ≡ pos k
    → ltb k (2 ^ 63) ≡ true
    → decode_todo (todo_value t) old ≡ t
unfolding todo_value todo_members todo_member
decode_todo-todo_value t old k e h =
    let small : in_int64 t.id ≡ true = ap in_int64 e ∙ h in rw small

decode_todos-todo_items :
    (low n : ℕ) (todos old : List Todo)
    → n ≤ 2 ^ 63
    → Rising low n todos
    → decode_todos (todo_items todos) old ≡ todos
unfolding decode_todos todo_items
decode_todos-todo_items low n [] old h r = refl
decode_todos-todo_items low n (t ∷ todos) [] h (k, i, l, r) =
    let below = Rising-le (suc k) n todos r in
    cc (
      decode_todo-todo_value t zero_todo k i (ground (arith, below)),
      decode_todos-todo_items (suc k) n todos [] h r,
    )
decode_todos-todo_items low n (t ∷ todos) (u ∷ old) h (k, i, l, r) =
    let below = Rising-le (suc k) n todos r in
    cc (
      decode_todo-todo_value t u k i (ground (arith, below)),
      decode_todos-todo_items (suc k) n todos old h r,
    )

todos_over-todos_value :
    (n : ℕ) (o old : Option (List Todo))
    → n ≤ 2 ^ 63
    → Rising 1 n (value_or [] o)
    → todos_over (todos_value o) old ≡ o
todos_over-todos_value n none old h r = refl
todos_over-todos_value n (some todos) old h r =
    ap some (decode_todos-todo_items 1 n todos (value_or [] old) h r)

round_quotient-one : (n : ℕ) → round_quotient n 1 ≡ n
round_quotient-one n = ground arith

whole_float-small : (n : ℕ) → n < 2 ^ 53 → whole_float n 1 ≡ n
unfolding whole_float
whole_float-small n h =
    let whole : n / 1 ≡ n = omega arith in
    let small : ltb n (2 ^ 53) ≡ true = ground (arith, h) in
    let k = 53 - bits 64 n in
    let positive : 0 < 2 ^ k = omega (arith, one-le-pow k 2 (omega arith)) in
    rw whole (rw (small, round_quotient-one (n * 2 ^ k)) (mul-div_cancel n positive))

truncated-integer :
    (n : ℕ) → n < 2 ^ 53 → truncated (record { mantissa = pos n; scale = 0; form = plain }) ≡ pos n
truncated-integer n h =
    let zeros : whole_float 0 1 ≡ 0 = whole_float-small 0 (omega arith) in
    rw (whole_float-small n h, zeros) (ground (arith, h))

-- What is written in the details of an answer is what is read of them.
restored_from-todo_details :
    (action : String) (t old : Todos) (n : ℕ)
    → n < 2 ^ 53
    → t.next_todo ≡ pos n
    → Rising 1 n (value_or [] t.todos)
    → restored_from (some (obj (todo_details action t))) old ≡ t
unfolding todo_details get
restored_from-todo_details action t old n h e r = cc (
  todos_over-todos_value n t.todos old.todos (omega (arith, h)) r,
  ap (λ z. truncated (record { mantissa = z; scale = 0; form = plain })) e,
  truncated-integer n h,
  e,
)

-- An answer holds the todos in its details.
abbrev Holds : Todos × TodoReply → Type 0
Holds (t, failed err) = Unit
Holds (t, answered r) = (action : String) × (r.details ≡ some (todo_details action t))

todo_answer-Holds : (action : String) (t : Todos) → Holds (todo_answer action t)
unfolding todo_reply
todo_answer-Holds action t = (action, refl)

act-Holds : (p : TodoInput) (t : Todos) → Holds (act p t)
unfolding act
act-Holds p t =
    either Holds (p.action == "add") _ _
      (either Holds (p.text == "") _ _ tt (todo_answer-Holds p.action (with_todo p.text t)))
      (either Holds (p.action == "toggle") _ _
        (either Holds (has_todo p.id (value_or [] t.todos)) _ _
          (todo_answer-Holds p.action (with_toggled p.id t)) tt)
        (either Holds (p.action == "clear") _ _ (todo_answer-Holds p.action no_todos)
          (either Holds (p.action == "list") _ _ (todo_answer-Holds p.action t) tt)))

act_on-Holds : (o : Option TodoInput) (t : Todos) → Holds (act_on o t)
act_on-Holds none t = tt
act_on-Holds (some p) t = act-Holds p _

restore_each-snoc :
    (entries : List Entry) (e : Entry) (t : Todos)
    → restore_each (entries ++ e ∷ []) t ≡ restore_todo e (restore_each entries t)
unfolding restore_each
restore_each-snoc [] e t = refl
restore_each-snoc (f ∷ entries) e t = restore_each-snoc entries e (restore_todo f t)

-- The payload of the entry of an answer.
abbrev answer_payload : Value → Value → Fields
answer_payload message details =
    put_all (field "toolName" (str "todo") (field "details" details end))
      (field "message" message end)

restore_todo-entry :
    (leaf id timestamp : String) (message details : Value) (t : Todos)
    → restore_todo (new_entry leaf id timestamp "message" (answer_payload message details)) t
      ≡ restored_from (some details) t
unfolding restore_todo new_entry base_entry put_all put get
restore_todo-entry leaf id timestamp message details t = elim (Bool-cases (leaf == "")) [
  | inl e ↦ rw e
  | inr e ↦ rw e
]

-- The fields that recordToolOutcome adds to the message of an answer.
abbrev pub outcome_fields : ToolResult → Fields
outcome_fields r = field "toolName" (str "todo") (field "details" (details_value r.details) end)

module _ (encode : Message → Value) (fresh : ℕ → String × String) (message : Message) where
  restore_todos-details :
      (s : Session) (t : Todos) (r : ToolResult) (action : String) (numbered : IsNumbered t)
      → numbered.0 < 2 ^ 53
      → r.details ≡ some (todo_details action t)
      → ((fresh (length s.entries)).0 == "") ≡ false
      → by_id s.entries (fresh (length s.entries)).0 ≡ none
      → restore_todos (branch (append_message encode fresh message (outcome_fields r) s)) ≡ t
  unfolding append_message restore_todos put_all put get
  restore_todos-details s t r action (n, e, rising) small h hi free =
      let (id, timestamp) = fresh (length s.entries) in
      let payload = answer_payload (encode message) (details_value r.details) in
      ap restore_todos (branch-append_entry s id timestamp "message" payload hi free refl refl)
      ∙ restore_each-snoc (branch_from_leaf s) _ no_todos_yet
      ∙ restore_todo-entry s.leaf_id id timestamp (encode message) (details_value r.details) _
      ∙ ap
          (λ d.
            restored_from (some (details_value d)) (restore_each (branch_from_leaf s) no_todos_yet))
          h
      ∙ restored_from-todo_details action t _ n small e rising
    where
      no_todos_yet : Todos
      no_todos_yet = record { todos = some []; next_todo = pos 1 }

  -- When the todo tool answers a call, its todos are numbered as IsNumbered says with the next
  -- number below 2 ^ 53, and the answer is recorded under a new id that is not empty, with any
  -- message, restoreTodos reads from the branch exactly the todos and the next number that the tool
  -- has then.
  pub restore_todos-todo :
      (s : Session) (raw : Value) (t t' : Todos) (r : ToolResult) (numbered : IsNumbered t')
      → numbered.0 < 2 ^ 53
      → todo raw t ≡ (t', answered r)
      → ((fresh (length s.entries)).0 == "") ≡ false
      → by_id s.entries (fresh (length s.entries)).0 ≡ none
      → restore_todos (branch (append_message encode fresh message (outcome_fields r) s)) ≡ t'
  unfolding todo
  restore_todos-todo s raw t t' r numbered small h hi free =
      let (action, d) = subst Holds h (act_on-Holds (struct_of input_member no_input raw) t) in
      restore_todos-details s t' r action numbered small d hi free
