-- ===== src/Profile/Unique.antt =====
-- The loop of `uniqueStrings` of resource/resources.go.
use ergo_agent.Prelude.{
  String, ◌≡◌, refl, List, [], ◌∷◌, ◌++◌, arith, contains, contains-append, Bool-cases, inl, inr,
  if◌then◌else◌,
}
use ergo_agent.Profile.{unique_loop, unique_strings}

-- The loop with one list in place of the set and the result.
unfoldable pub unique_from : List String → List String → List String
unique_from out [] = out
unique_from out (v ∷ values) = unique_from (if contains out v then out else out ++ v ∷ []) values

unique_loop-eq :
    (seen out values : List String)
    → ((x : String) → contains seen x ≡ contains out x)
    → unique_loop seen out values ≡ unique_from out values
unfolding unique_loop unique_from
unique_loop-eq seen out [] h = refl
unique_loop-eq seen out (v ∷ values) h = elim (Bool-cases (contains out v)) [
  | inl e ↦ rw (h v, e) (unique_loop-eq seen out values h)
  | inr e ↦
      rw (h v, e)
        (unique_loop-eq (v ∷ seen) (out ++ v ∷ []) values
          (λ x. unfold contains in ground (arith, contains-append out (v ∷ []) x, h x)))
]

pub unique_strings-eq : (values : List String) → unique_strings values ≡ unique_from [] values
unfolding unique_strings
unique_strings-eq values = unique_loop-eq [] [] values (λ x. refl)
