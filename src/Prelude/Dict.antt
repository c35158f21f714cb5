-- ===== src/Prelude/Dict.antt =====
-- Go's maps with text keys as association lists: `m[k]`, `m[k] = v`; and lists of texts.
use Prim.Native.String.{String}
use mathlib.Core.Path.{◌≡◌, refl}
use mathlib.Core.Bool.{Bool, true, false, ◌||◌}
use mathlib.Core.Option.{Option, none, some}
use mathlib.Core.List.{List, [], ◌∷◌, ◌++◌}
use native.Mathlib.Omega.{arith}
use text.Mathlib.Text.{◌==◌}
use text.Mathlib.TextEquality.{eq_iff}
use ergo_agent.Prelude.Tests.{if◌then◌else◌}

module _ {ℓ} {V : Type ℓ} where
  abbrev pub is_some : Option V → Bool
  is_some none = false
  is_some (some v) = true

  -- The comma-less read `m[k]`: the zero value where the key is missing.
  abbrev pub value_or : V → Option V → V
  value_or zero none = zero
  value_or zero (some v) = v

  pub some_of : (o : Option V) → is_some o ≡ true → (v : V) × (o ≡ some v)
  some_of none h = cc
  some_of (some v) h = (v, refl)

  abbrev pub or_else : Option V → Option V → Option V
  or_else none o = o
  or_else (some v) o = some v

  unfoldable pub lookup : String → List (String × V) → Option V
  lookup key [] = none
  lookup key ((name, value) ∷ entries) = if name == key then some value else lookup key entries

  unfoldable pub insert : String → V → List (String × V) → List (String × V)
  insert key new [] = (key, new) ∷ []
  insert key new ((name, old) ∷ entries) =
      if name == key then (name, new) ∷ entries else (name, old) ∷ insert key new entries

  pub lookup-insert :
      (key wanted : String) (new : V) (entries : List (String × V))
      → lookup wanted (insert key new entries)
        ≡ (if key == wanted then some new else lookup wanted entries)
  unfolding lookup insert
  lookup-insert key wanted new [] = refl
  lookup-insert key wanted new ((name, old) ∷ entries) = ground (
    arith,
    lookup-insert key wanted new entries,
    eq_iff key wanted,
    eq_iff name key,
    eq_iff name wanted,
  )

-- A step that may fail, and what follows it.
abbrev pub bind : {A B : Type 0} → Option A → (A → Option B) → Option B
bind none f = none
bind (some a) f = f a

-- The helper `contains` of the packages engine and resource; a set of texts is such a list too.
unfoldable pub contains : List String → String → Bool
contains [] target = false
contains (v ∷ values) target = v == target || contains values target

pub contains-append :
    (a b : List String) (x : String) → contains (a ++ b) x ≡ (contains a x || contains b x)
unfolding contains
contains-append [] b x = refl
contains-append (v ∷ a) b x = ground (arith, contains-append a b x)

-- No text stands twice.
abbrev pub Distinct : List String → Type 0
Distinct [] = Unit
Distinct (v ∷ values) = (contains values v ≡ false) × Distinct values

pub Distinct-snoc :
    (a : List String) (x : String) → Distinct a → contains a x ≡ false → Distinct (a ++ x ∷ [])
unfolding contains
Distinct-snoc [] x d h = (refl, tt)
Distinct-snoc (v ∷ a) x (new, d) h = (
  ground (arith, contains-append a (x ∷ []) v, eq_iff x v, eq_iff v x),
  Distinct-snoc a x d (ground arith),
)
