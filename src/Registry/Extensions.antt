-- ===== src/Registry/Extensions.antt =====
-- `extensionTools` and `upsertTool` of internal/engine/runtime.go: registrations of the same name.
use ergo_agent.Prelude.{
  String, true, ◌≡◌, refl, ◌∙◌, sym, Option, none, some, is_some, some_of, or_else, List, [], ◌∷◌,
  ◌++◌, arith, ◌==◌, eq_iff, contains, contains-append, lookup, insert, lookup-insert, Distinct,
  Distinct-snoc, Bool-cases, inl, inr, if◌then◌else◌,
}
use ergo_agent.Profile.{unique_strings}
use ergo_agent.Profile.Unique.{unique_from, unique_strings-eq}
use ergo_agent.Registry.{
  ToolDefinition, find_tool, definition_names, upsert_tool, register, collect, extension_tools,
}

abbrev Map : Type 0 → Type 0
Map R = List (String × ToolDefinition R)

contains-one : (a x : String) → contains (a ∷ []) x ≡ (a == x)
unfolding contains
contains-one a x = ground arith

module _ {R : Type 0} where
  -- What is found after an upsert.
  pub find_tool-upsert_tool :
      (tools : List (ToolDefinition R)) (t : ToolDefinition R) (name : String)
      → find_tool (upsert_tool tools t) name
        ≡ (if t.name == name then some t else find_tool tools name)
  unfolding find_tool upsert_tool
  find_tool-upsert_tool [] t name = refl
  find_tool-upsert_tool (u ∷ tools) t name = ground (
    arith,
    find_tool-upsert_tool tools t name,
    eq_iff t.name name,
    eq_iff u.name t.name,
    eq_iff u.name name,
  )

  -- The definition of a name that was registered last.
  pub find_last : List (ToolDefinition R) → String → Option (ToolDefinition R)
  find_last [] name = none
  find_last (t ∷ tools) name =
      or_else (find_last tools name) (if t.name == name then some t else none)

  lookup-register :
      (order : List String) (m : Map R) (tools : List (ToolDefinition R)) (n : String)
      → lookup n (register order m tools).1 ≡ or_else (find_last tools n) (lookup n m)
  unfolding register find_last
  lookup-register order m [] n = refl
  lookup-register order m (t ∷ tools) n = ground (
    arith,
    lookup-register (if is_some (lookup t.name m) then order else order ++ t.name ∷ [])
        (insert t.name t m) tools n,
    lookup-insert t.name n t m,
  )

  -- A key of the map is in the order, once, and stands for a definition of that name.
  record IsRegistry (order : List String) (m : Map R) : Type 0 where
    distinct : Distinct order
    listed : (n : String) → contains order n ≡ is_some (lookup n m)
    keyed : (n : String) (t : ToolDefinition R) → lookup n m ≡ some t → t.name ≡ n

  insert-IsRegistry :
      (order : List String) (m : Map R) (t : ToolDefinition R)
      → IsRegistry order m
      → IsRegistry
          (if is_some (lookup t.name m) then order else order ++ t.name ∷ [])
          (insert t.name t m)
  insert-IsRegistry order m t r = record {
    distinct = elim (Bool-cases (is_some (lookup t.name m))) [
      | inl e ↦ rw e r.distinct
      | inr e ↦ rw e (Distinct-snoc order t.name r.distinct (r.listed t.name ∙ e))
    ];
    listed = λ n. ground (
      arith,
      lookup-insert t.name n t m,
      r.listed n,
      r.listed t.name,
      contains-append order (t.name ∷ []) n,
      eq_iff t.name n,
      contains-one t.name n,
    );
    keyed = λ n u h. ground (arith, lookup-insert t.name n t m, r.keyed n u, eq_iff t.name n);
  }

  register-IsRegistry :
      (order : List String) (m : Map R) (tools : List (ToolDefinition R))
      → IsRegistry order m
      → IsRegistry (register order m tools).0 (register order m tools).1
  unfolding register
  register-IsRegistry order m [] r = r
  register-IsRegistry order m (t ∷ tools) r =
      register-IsRegistry (if is_some (lookup t.name m) then order else order ++ t.name ∷ [])
        (insert t.name t m) tools (insert-IsRegistry order m t r)

  empty-IsRegistry : IsRegistry [] []
  unfolding contains lookup
  empty-IsRegistry = record { distinct = tt; listed = λ n. refl; keyed = λ n t h. cc }

  module _ (zero : ToolDefinition R) (m : Map R)
      (keyed : (n : String) (t : ToolDefinition R) → lookup n m ≡ some t → t.name ≡ n) where
    find_tool-collect :
        (order : List String) (n : String)
        → ((k : String) → contains order k ≡ true → is_some (lookup k m) ≡ true)
        → find_tool (collect zero m order) n ≡ (if contains order n then lookup n m else none)
    unfolding find_tool collect contains
    find_tool-collect [] n h = refl
    find_tool-collect (k ∷ order) n h =
        let (t, e) = some_of (lookup k m) (h k (ground (arith, eq_iff k k))) in
        let rest = find_tool-collect order n (λ j q. h j (ground arith)) in
        ground (arith, e, rest, keyed k t e, eq_iff k n)

    names-collect :
        (order : List String)
        → ((k : String) → contains order k ≡ true → is_some (lookup k m) ≡ true)
        → definition_names (collect zero m order) ≡ order
    unfolding definition_names collect contains
    names-collect [] h = refl
    names-collect (k ∷ order) h =
        let (t, e) = some_of (lookup k m) (h k (ground (arith, eq_iff k k))) in
        let rest = names-collect order (λ j q. h j (ground arith)) in
        ground (arith, e, rest, keyed k t e)

  order-register :
      (order : List String) (m : Map R) (tools : List (ToolDefinition R))
      → IsRegistry order m
      → (register order m tools).0 ≡ unique_from order (definition_names tools)
  unfolding register definition_names unique_from
  order-register order m [] r = refl
  order-register order m (t ∷ tools) r =
      let next =
        order-register (if is_some (lookup t.name m) then order else order ++ t.name ∷ [])
          (insert t.name t m) tools (insert-IsRegistry order m t r) in
      rw (r.listed t.name, unique_from) next

  final :
      (tools : List (ToolDefinition R))
      → IsRegistry (register [] [] tools).0 (register [] [] tools).1
  final tools = register-IsRegistry [] [] tools empty-IsRegistry

  -- Of the tools that one extension registers, the last of a name is the one that findTool finds
  -- under it.
  pub find_tool-extension_tools :
      (zero : ToolDefinition R) (tools : List (ToolDefinition R)) (name : String)
      → find_tool (extension_tools zero tools) name ≡ find_last tools name
  unfolding extension_tools lookup
  find_tool-extension_tools zero tools name =
      let r = final tools in
      ground (
        arith,
        find_tool-collect zero (register [] [] tools).1 r.keyed (register [] [] tools).0 name
            (λ k q. sym (r.listed k) ∙ q),
        r.listed name,
        lookup-register [] [] tools name,
      )

  -- extensionTools keeps each name once, in the order of the first registrations, as uniqueStrings
  -- orders the names.
  pub names-extension_tools :
      (zero : ToolDefinition R) (tools : List (ToolDefinition R))
      → (definition_names (extension_tools zero tools) ≡ unique_strings (definition_names tools))
        × Distinct (definition_names (extension_tools zero tools))
  unfolding extension_tools
  names-extension_tools zero tools =
      let r = final tools in
      let e =
        names-collect zero (register [] [] tools).1 r.keyed (register [] [] tools).0
          (λ k q. sym (r.listed k) ∙ q) in
      (
        e
            ∙ order-register [] [] tools empty-IsRegistry
            ∙ sym (unique_strings-eq (definition_names tools)),
        rw e r.distinct,
      )
