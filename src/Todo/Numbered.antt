-- ===== src/Todo/Numbered.antt =====
-- The numbers of the todos of internal/engine/tools.go.
use ergo_agent.Prelude.{
  ℕ, suc, ◌+◌, ◌%◌, ◌^◌, ◌<◌, ltb, ◌≤◌, Bool, true, false, ◌≡◌, refl, sym, ap, ◌∙◌, Option, some,
  none, List, [], ◌∷◌, ◌++◌, value_or, if◌then◌else◌, arith, not, subst, ◌==◌, leb, ◌-◌,
}
use ergo_agent.Prelude.Int.{ℤ, pos, ◌+ℤ◌, int64}
use ergo_agent.Json.{Value}
use ergo_agent.Message.Codec.{struct_of}
use ergo_agent.Todo.{
  Todo, Todos, TodoInput, TodoReply, input_member, no_input, toggle, has_todo, eq_int, act_on,
  from_one, act, todo,
}

-- The ids rise from `low` on and stay below `high`.
abbrev pub Rising : ℕ → ℕ → List Todo → Type 0
Rising low high [] = low ≤ high
Rising low high (t ∷ todos) = (k : ℕ) × (t.id ≡ pos k) × (low ≤ k) × Rising (suc k) high todos

-- The ids of the todos rise from 1 on, and the next one is larger than all of them.
abbrev pub IsNumbered : Todos → Type 0
IsNumbered t = (n : ℕ) × (t.next_todo ≡ pos n) × Rising 1 n (value_or [] t.todos)

pub either :
    {A : Type 0} → (P : A → Type 0) (b : Bool) (x y : A) → P x → P y → P (if b then x else y)
either P true x y h k = h
either P false x y h k = k

Rising-snoc :
    (low n : ℕ) (todos : List Todo) (t : Todo)
    → t.id ≡ pos n
    → Rising low n todos
    → Rising low (n + 1) (todos ++ t ∷ [])
Rising-snoc low n [] t e h = (n, e, h, omega arith)
Rising-snoc low n (u ∷ todos) t e (k, i, l, h) = (k, i, l, Rising-snoc (suc k) n todos t e h)

id-toggle : (b : Bool) (t : Todo) → (if b then record t { done = not t.done } else t).id ≡ t.id
id-toggle true t = refl
id-toggle false t = refl

Rising-toggle :
    (id : ℤ) (low n : ℕ) (todos : List Todo) → Rising low n todos → Rising low n (toggle id todos)
unfolding toggle
Rising-toggle id low n [] h = h
Rising-toggle id low n (t ∷ todos) (k, i, l, h) =
    (k, id-toggle (eq_int t.id id) t ∙ i, l, Rising-toggle id (suc k) n todos h)

pub Rising-le : (low n : ℕ) (todos : List Todo) → Rising low n todos → low ≤ n
Rising-le low n [] h = h
Rising-le low n (t ∷ todos) (k, i, l, h) = omega (arith, Rising-le (suc k) n todos h)

from_one-IsNumbered : (t : Todos) → IsNumbered t → from_one t ≡ t
from_one-IsNumbered t (n, e, h) =
    let test : eq_int t.next_todo (pos 0) ≡ false =
      ap (λ z. eq_int z (pos 0)) e ∙ ground (arith, Rising-le 1 n (value_or [] t.todos) h) in
    rw test

plus_one : (n : ℕ) → n + 1 < 2 ^ 63 → int64 (pos n +ℤ pos 1) ≡ pos (n + 1)
unfolding ◌+ℤ◌
plus_one n h =
    let test : leb 0 (n + 1) ≡ true = ground arith in
    let same : n + 1 - 0 ≡ n + 1 = omega arith in
    let wrapped : (n + 1) % 2 ^ 64 ≡ n + 1 = omega (arith, h) in
    let small : ltb (n + 1) (2 ^ 63) ≡ true = ground (arith, h) in
    rw test (rw (same, wrapped, small))

IsNumbered-act :
    (p : TodoInput) (t : Todos) (numbered : IsNumbered t)
    → numbered.0 + 1 < 2 ^ 63
    → IsNumbered (act p t).0
unfolding act
IsNumbered-act p t (n, e, h) small =
    let P : Todos × TodoReply → Type 0 = λ r. IsNumbered r.0 in
    let same : IsNumbered t = (n, e, h) in
    either P (p.action == "add") _ _
      (either P (p.text == "") _ _ same (
        n + 1,
        ap (λ z. int64 (z +ℤ pos 1)) e ∙ plus_one n small,
        Rising-snoc 1 n (value_or [] t.todos) _ e h,
      ))
      (either P (p.action == "toggle") _ _
        (either P (has_todo p.id (value_or [] t.todos)) _ _
          (n, e, Rising-toggle p.id 1 n (value_or [] t.todos) h) same)
        (either P (p.action == "clear") _ _ (1, refl, omega arith)
          (either P (p.action == "list") _ _ same same)))

act_on-IsNumbered :
    (o : Option TodoInput) (t : Todos) (numbered : IsNumbered (from_one t))
    → numbered.0 + 1 < 2 ^ 63
    → IsNumbered (from_one (act_on o t).0)
act_on-IsNumbered none t h small = h
act_on-IsNumbered (some p) t h small =
    let r = IsNumbered-act p (from_one t) h small in
    subst IsNumbered (sym (from_one-IsNumbered (act p (from_one t)).0 r)) r

-- When the numbers of the todos rise from 1 on and stay below the next number, and the number
-- behind the next one is an int too, they do so after any call of the todo tool, whatever its
-- arguments.
pub todo-IsNumbered :
    (raw : Value) (t : Todos) (numbered : IsNumbered (from_one t))
    → numbered.0 + 1 < 2 ^ 63
    → IsNumbered (from_one (todo raw t).0)
unfolding todo
todo-IsNumbered raw t h small = act_on-IsNumbered (struct_of input_member no_input raw) t h small
