-- ===== src/FileEdit/Splice.antt =====
-- The loop from the last match in applyFileEdits of internal/engine/file_edit.go, against the
-- replacement of all matches at once.
use ergo_agent.Prelude.{
  ℕ, zero, suc, ◌+◌, ◌-◌, ◌≤◌, ◌≡◌, refl, sym, ap, ◌∙◌, List, [], ◌∷◌, ◌++◌, append_assoc, take,
  drop, length, take-append-drop, arith,
}
use ergo_agent.FileEdit.{Text, EditMatch, splice, splice_all}

-- All matches at once, for a text that begins at `offset`: what stands between the matches is kept.
unfoldable pub replaced : ℕ → List EditMatch → Text → Text
replaced offset [] text = text
replaced offset (m ∷ matches) text =
    take (m.index - offset) text
    ++ m.new_text
    ++ replaced (m.index + m.size) matches (drop (m.index + m.size - offset) text)

-- Matches one behind the other, from `offset` on and within `limit`.
abbrev pub Fits : ℕ → ℕ → List EditMatch → Type 0
Fits offset limit [] = offset ≤ limit
Fits offset limit (m ∷ matches) = (offset ≤ m.index) × Fits (m.index + m.size) limit matches

Fits-le : (offset limit : ℕ) (matches : List EditMatch) → Fits offset limit matches → offset ≤ limit
Fits-le offset limit [] h = h
Fits-le offset limit (m ∷ matches) (h, rest) =
    omega (arith, Fits-le (m.index + m.size) limit matches rest)

take-all : (n : ℕ) (a b : Text) → n ≤ length a → take n (a ++ b) ≡ take n a
take-all zero a b h = refl
take-all (suc n) [] b h = absurd (omega arith)
take-all (suc n) (c ∷ a) b h = ap (λ r. c ∷ r) (take-all n a b (omega arith))

drop-all : (n : ℕ) (a b : Text) → n ≡ length a → drop n (a ++ b) ≡ b
drop-all zero [] b h = refl
drop-all zero (c ∷ a) b h = absurd (omega arith)
drop-all (suc n) [] b h = absurd (omega arith)
drop-all (suc n) (c ∷ a) b h = drop-all n a b (omega arith)

length-take : (n : ℕ) (a : Text) → n ≤ length a → length (take n a) ≡ n
length-take zero a h = refl
length-take (suc n) [] h = absurd (omega arith)
length-take (suc n) (c ∷ a) h = omega (arith, length-take n a (omega arith))

take-take : (n k : ℕ) (a : Text) → n ≤ k → take n (take k a) ≡ take n a
take-take zero k a h = refl
take-take (suc n) zero a h = absurd (omega arith)
take-take (suc n) (suc k) [] h = refl
take-take (suc n) (suc k) (c ∷ a) h = ap (λ r. c ∷ r) (take-take n k a (omega arith))

drop-drop : (n k : ℕ) (a : Text) → n ≤ k → drop (k - n) (drop n a) ≡ drop k a
drop-drop zero k a h = ap (λ i. drop i a) {x = k - 0} {y = k} (omega arith)
drop-drop (suc n) zero a h = absurd (omega arith)
drop-drop (suc n) (suc k) [] h = nothing (suc k - suc n)
  where
    nothing : (i : ℕ) → drop {A = ℕ} i [] ≡ []
    nothing zero = refl
    nothing (suc i) = refl
drop-drop (suc n) (suc k) (c ∷ a) h =
    ap (λ i. drop i (drop n a)) {x = suc k - suc n} {y = k - n} (omega arith)
    ∙ drop-drop n k a (omega arith)

take-split : (n k : ℕ) (a : Text) → n ≤ k → take n a ++ take (k - n) (drop n a) ≡ take k a
take-split zero k a h = ap (λ i. take i a) {x = k - 0} {y = k} (omega arith)
take-split (suc n) zero a h = absurd (omega arith)
take-split (suc n) (suc k) [] h = nothing (suc k - suc n)
  where
    nothing : (i : ℕ) → take {A = ℕ} i [] ≡ []
    nothing zero = refl
    nothing (suc i) = refl
take-split (suc n) (suc k) (c ∷ a) h =
    ap (λ i. c ∷ (take n a ++ take i (drop n a))) {x = suc k - suc n} {y = k - n} (omega arith)
    ∙ ap (λ r. c ∷ r) (take-split n k a (omega arith))

splice_all-offset :
    (offset : ℕ) (matches : List EditMatch) (text : Text)
    → Fits offset (length text) matches
    → splice_all matches text ≡ take offset text ++ replaced offset matches (drop offset text)
unfolding splice_all replaced splice
splice_all-offset offset [] text h = sym (take-append-drop offset text)
splice_all-offset offset (m ∷ matches) text (h, rest) =
    let end = m.index + m.size in
    let tail = replaced end matches (drop end text) in
    let between = take (m.index - offset) (drop offset text) in
    let tail' = replaced end matches (drop (end - offset) (drop offset text)) in
    let within = Fits-le end (length text) matches rest in
    let later = splice_all-offset end matches text rest in
    let kept = length-take end text within in
    ap (splice m) later
    ∙ ap (λ r. r ++ m.new_text ++ drop end (take end text ++ tail))
        (take-all m.index (take end text) tail (omega arith)
          ∙ take-take m.index end text (omega arith))
    ∙ ap (λ r. take m.index text ++ m.new_text ++ r)
        (drop-all end (take end text) tail (omega arith))
    ∙ ap (λ r. r ++ m.new_text ++ tail) (sym (take-split offset m.index text h))
    ∙ ap (λ d. take offset text ++ between ++ m.new_text ++ replaced end matches d)
        (sym (drop-drop offset end text (omega arith)))
    ∙ append_assoc (take offset text ++ between) m.new_text tail'
    ∙ append_assoc (take offset text) between (m.new_text ++ tail')
    ∙ ap (λ r. take offset text ++ r) (sym (append_assoc between m.new_text tail'))

-- The text that the loop makes is the simultaneous replacement.
pub splice_all-replaced :
    (matches : List EditMatch) (text : Text)
    → Fits 0 (length text) matches
    → splice_all matches text ≡ replaced 0 matches text
splice_all-replaced matches text h = splice_all-offset 0 matches text h
