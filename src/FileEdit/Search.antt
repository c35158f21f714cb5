-- ===== src/FileEdit/Search.antt =====
-- strings.Index and strings.Count as internal/engine/file_edit.go uses them.
use ergo_agent.Prelude.{
  ℕ, zero, suc, ◌+◌, ◌≤◌, true, ◌≡◌, refl, ap, ◌∙◌, ◌≢◌, none, some, [], ◌∷◌, take, drop, length,
  arith, Bool-cases, Option-cases, inl, inr,
}
use ergo_agent.FileEdit.{Text, starts, index_of, count_from, count_of}

starts-take : (text needle : Text) → starts text needle ≡ true → take (length needle) text ≡ needle
unfolding starts
starts-take text [] h = refl
starts-take [] (d ∷ needle) h = cc h
starts-take (c ∷ text) (d ∷ needle) h = ground (arith, starts-take text needle)

starts-length : (text needle : Text) → starts text needle ≡ true → length needle ≤ length text
unfolding starts
starts-length text [] h = omega arith
starts-length [] (d ∷ needle) h = cc h
starts-length (c ∷ text) (d ∷ needle) h = ground (arith, starts-length text needle)

-- Where a needle is found it stands, and within the text.
pub index_of-some :
    (text needle : Text) (i : ℕ)
    → index_of text needle ≡ some i
    → (take (length needle) (drop i text) ≡ needle) × (i + length needle ≤ length text)
unfolding index_of
index_of-some [] needle i h = elim (Bool-cases (starts [] needle)) [
  | inl a ↦
      let e : i ≡ 0 = ground arith in
      (
        ap (λ k. take (length needle) (drop {A = ℕ} k [])) e ∙ starts-take [] needle a,
        omega (arith, starts-length [] needle a, e),
      )
  | inr a ↦ absurd (ground arith)
]
index_of-some (c ∷ text) needle i h = elim (Bool-cases (starts (c ∷ text) needle)) [
  | inl a ↦
      let e : i ≡ 0 = ground arith in
      (
        ap (λ k. take (length needle) (drop k (c ∷ text))) e ∙ starts-take (c ∷ text) needle a,
        omega (arith, starts-length (c ∷ text) needle a, e),
      )
  | inr a ↦ elim (Option-cases (index_of text needle)) [
    | inl n ↦ absurd (ground arith)
    | inr (j, e) ↦
        let k : i ≡ suc j = ground arith in
        let (stands, within) = index_of-some text needle j e in
        (ap (λ k. take (length needle) (drop k (c ∷ text))) k ∙ stands, omega (arith, k, within))
  ]
]

count_from-none :
    (skip : ℕ) (text : Text) (d : ℕ) (needle : Text)
    → index_of text (d ∷ needle) ≡ none
    → count_from skip text (d ∷ needle) ≡ 0
unfolding count_from index_of
count_from-none skip [] d needle h = refl
count_from-none (suc skip) (c ∷ text) d needle h =
    ground (arith, count_from-none skip text d needle)
count_from-none zero (c ∷ text) d needle h = ground (arith, count_from-none 0 text d needle)

-- A needle that is counted is found.
pub index_of-count :
    (text needle : Text) → count_of text needle ≢ 0 → (i : ℕ) × (index_of text needle ≡ some i)
unfolding count_of index_of starts
index_of-count [] [] h = (0, refl)
index_of-count (c ∷ text) [] h = (0, refl)
index_of-count text (d ∷ needle) h = elim (Option-cases (index_of text (d ∷ needle))) [
  | inl n ↦ absurd (h (count_from-none 0 text d needle n))
  | inr r ↦ r
]
