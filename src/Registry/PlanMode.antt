-- ===== src/Registry/PlanMode.antt =====
-- `planTools` of internal/engine/runtime.go: what plan mode leaves of a list of tool names.
use ergo_agent.Prelude.{
  String, Bool, true, false, not, ◌&&◌, ◌||◌, ◌≡◌, refl, subst, List, [], ◌∷◌, ◌++◌, filter, arith,
  ◌==◌, eq_iff, contains, contains-append, Bool-cases, inl, inr,
}
use ergo_agent.Registry.{plan_disabled, plan_required, add_missing, plan_tools}

-- A test that depends on the text alone filters membership.
contains-filter :
    (p : String → Bool) (x : String) (names : List String)
    → contains (filter p names) x ≡ (contains names x && p x)
unfolding contains
contains-filter p x [] = refl
contains-filter p x (n ∷ names) = elim (Bool-cases (n == x)) [
  | inl e ↦
      subst (λ y. contains (filter p (n ∷ names)) y ≡ (contains (n ∷ names) y && p y))
        ((eq_iff n x).0 e) (ground (arith, contains-filter p n names, eq_iff n n))
  | inr e ↦ ground (arith, contains-filter p x names)
]

contains-add_missing :
    (x : String) (out names : List String)
    → contains (add_missing out names) x ≡ (contains out x || contains names x)
unfolding add_missing contains
contains-add_missing x out [] = ground arith
contains-add_missing x out (n ∷ names) = elim (Bool-cases (contains out n)) [
  | inl e ↦ rw e (elim (Bool-cases (n == x)) [
    | inl q ↦
        let q' : n ≡ x = (eq_iff n x).0 q in
        let h : contains out x ≡ true = subst (λ y. contains out y ≡ true) q' e in
        ground (arith, contains-add_missing x out names)
    | inr q ↦ ground (arith, contains-add_missing x out names)
  ])
  | inr e ↦
      rw e (
        ground
          (arith, contains-add_missing x (out ++ n ∷ []) names, contains-append out (n ∷ []) x))
]

disabled_not_required :
    (x : String) → contains plan_disabled x ≡ true → contains plan_required x ≡ false
unfolding contains
disabled_not_required x h = elim (Bool-cases ("edit" == x)) [
  | inl e ↦ subst (λ y. contains plan_required y ≡ false) ((eq_iff "edit" x).0 e) refl
  | inr e ↦ elim (Bool-cases ("write" == x)) [
    | inl f ↦ subst (λ y. contains plan_required y ≡ false) ((eq_iff "write" x).0 f) refl
    | inr f ↦
        subst (λ y. contains plan_required y ≡ false) ((eq_iff "generate_image" x).0 (ground arith))
          refl
  ]
]

-- Under planTools the required read-only tools and the given tools that are not disabled are
-- offered and nothing else, and a disabled tool is never among them.
pub plan_tools_exact :
    (names : List String) (x : String)
    → (contains (plan_tools names) x
        ≡ (contains plan_required x || (contains names x && not (contains plan_disabled x))))
      × (contains plan_disabled x ≡ true → contains (plan_tools names) x ≡ false)
unfolding plan_tools
plan_tools_exact names x = (
  ground (
    arith,
    contains-add_missing x (filter (λ n. not (contains plan_disabled n)) names) plan_required,
    contains-filter (λ n. not (contains plan_disabled n)) x names,
  ),
  λ h. ground (
    arith,
    contains-add_missing x (filter (λ n. not (contains plan_disabled n)) names) plan_required,
    contains-filter (λ n. not (contains plan_disabled n)) x names,
    disabled_not_required x,
  ),
)
