-- ===== src/FileEdit.antt =====
-- internal/engine/file_edit.go: the replacements of the edit tool. A text is the list of the code
-- points of valid UTF-8, so that a position is a number of characters instead of bytes. The errors
-- are data instead of texts.
pub mod Search
pub mod Splice
pub mod Matches
pub mod Diff
use ergo_agent.Prelude.{
  ℕ, zero, suc, ◌+◌, ◌-◌, Bool, true, false, not, ◌&&◌, ◌||◌, Option, none, some, List, [], ◌∷◌,
  ◌++◌, eqb, ltb, leb, if◌then◌else◌, length, take, drop, get_elem?, value_or, is_some,
}
use ergo_agent.Prelude.Text.{is_space}

abbrev pub Text : Type 0
Text = List ℕ

pub record Edit : Type 0 where
  pub old_text : Text
  pub new_text : Text

pub record EditMatch : Type 0 where
  pub index : ℕ
  pub size : ℕ
  pub new_text : Text
  pub edit_index : ℕ

pub data EditError : Type 0 where
  empty_old not_found : ℕ → EditError
  occurrences : ℕ → ℕ → EditError
  overlap : ℕ → ℕ → EditError
  unchanged : EditError

pub data Edited (A : Type 0) : Type 0 where
  ok : A → Edited A
  refused : EditError → Edited A

abbrev pub carriage_return : ℕ
carriage_return = 13

abbrev pub newline : ℕ
newline = 10

-- strings.ReplaceAll(value, "\r\n", "\n")
unfoldable pub join_crlf : Text → Text
join_crlf [] = []
join_crlf (c ∷ []) = c ∷ []
join_crlf (c ∷ d ∷ text) =
    let joined = join_crlf text in
    let rest = join_crlf (d ∷ text) in
    if eqb c carriage_return && eqb d newline then newline ∷ joined else c ∷ rest

-- strings.ReplaceAll(value, "\r", "\n")
unfoldable pub replace_cr : Text → Text
replace_cr [] = []
replace_cr (c ∷ text) = (if eqb c carriage_return then newline else c) ∷ replace_cr text

unfoldable pub normalize_lf : Text → Text
normalize_lf text = replace_cr (join_crlf text)

-- strings.ReplaceAll(value, "\n", "\r\n")
unfoldable pub restore_crlf : Text → Text
restore_crlf [] = []
restore_crlf (c ∷ text) =
    let rest = restore_crlf text in
    if eqb c newline then carriage_return ∷ newline ∷ rest else c ∷ rest

unfoldable pub same_text : Text → Text → Bool
same_text [] [] = true
same_text (c ∷ a) (d ∷ b) = eqb c d && same_text a b
same_text _ _ = false

-- strings.HasPrefix
unfoldable pub starts : Text → Text → Bool
starts text [] = true
starts [] (d ∷ needle) = false
starts (c ∷ text) (d ∷ needle) = eqb c d && starts text needle

-- strings.Index
unfoldable pub index_of : Text → Text → Option ℕ
index_of [] needle = if starts [] needle then some 0 else none
index_of (c ∷ text) needle =
    if starts (c ∷ text) needle
    then some 0
    else elim (index_of text needle) [ none ↦ none | some i ↦ some (suc i) ]

-- strings.Count of a needle that is not empty: what stands after an occurrence is `skip` characters
-- away.
unfoldable pub count_from : ℕ → Text → Text → ℕ
count_from skip [] needle = 0
count_from (suc skip) (c ∷ text) needle = count_from skip text needle
count_from zero (c ∷ text) needle =
    let found = count_from (length needle - 1) text needle in
    let rest = count_from 0 text needle in if starts (c ∷ text) needle then found + 1 else rest

unfoldable pub count_of : Text → Text → ℕ
count_of text [] = length text + 1
count_of text (d ∷ needle) = count_from 0 text (d ∷ needle)

-- The first line break, when it is "\r\n".
unfoldable pub ends_crlf : Text → Bool
ends_crlf raw = elim (index_of raw (carriage_return ∷ newline ∷ [])) [
  | none ↦ false
  | some crlf ↦ elim (index_of raw (newline ∷ [])) [ none ↦ false | some lf ↦ eqb (crlf + 1) lf ]
]

unfoldable pub fuzzy_rune : ℕ → ℕ
fuzzy_rune r =
    if leb 8216 r && leb r 8219
    then 39
    else if leb 8220 r && leb r 8223
    then 34
    else if (leb 8208 r && leb r 8213) || eqb r 8722
    then 45
    else if eqb r 160 || (leb 8194 r && leb r 8202) || eqb r 8239 || eqb r 8287 || eqb r 12288
    then 32
    else r

-- Whether only spaces stand before the end of the line.
abbrev pub all_spaces : Text → Bool
all_spaces [] = true
all_spaces (c ∷ text) = if eqb c newline then true else is_space c && all_spaces text

-- The characters that are kept, as they are written, each with its position in the text: the spaces
-- at the end of a line are left out.
unfoldable pub fuzzy_pairs : ℕ → Text → List (ℕ × ℕ)
fuzzy_pairs offset [] = []
fuzzy_pairs offset (c ∷ text) =
    let rest = fuzzy_pairs (offset + 1) text in
    if eqb c newline
    then (newline, offset) ∷ rest
    else if all_spaces (c ∷ text)
    then rest
    else (fuzzy_rune c, offset) ∷ rest

abbrev pub runes_of : List (ℕ × ℕ) → Text
runes_of [] = []
runes_of ((r, offset) ∷ pairs) = r ∷ runes_of pairs

-- The boundary before a character is its position; the last one is the end of the text.
abbrev pub boundaries_of : List (ℕ × ℕ) → ℕ → List ℕ
boundaries_of [] end = end ∷ []
boundaries_of ((r, offset) ∷ pairs) end = offset ∷ boundaries_of pairs end

unfoldable pub normalize_fuzzy_with_boundaries : Text → Text × List ℕ
normalize_fuzzy_with_boundaries text =
    let pairs = fuzzy_pairs 0 text in (runes_of pairs, boundaries_of pairs (length text))

abbrev pub position : List ℕ → ℕ → ℕ
position boundaries i = value_or 0 (get_elem? boundaries i)

-- The base in which the edits are looked for, and its boundaries if the search is fuzzy.
abbrev pub Searched : Type 0
Searched = Text × Option (List ℕ)

abbrev pub needle_of : Option (List ℕ) → Text → Text
needle_of none old = old
needle_of (some boundaries) old = (normalize_fuzzy_with_boundaries old).0

unfoldable pub match_at : Option (List ℕ) → ℕ → ℕ → Text → ℕ → EditMatch
match_at none index size new i = record {
  index = index;
  size = size;
  new_text = new;
  edit_index = i;
}
match_at (some boundaries) index size new i = record {
  index = position boundaries index;
  size = position boundaries (index + size) - position boundaries index;
  new_text = new;
  edit_index = i;
}

-- The body of the loop over the edits.
unfoldable pub find_match : Searched → ℕ → Edit → Edited EditMatch
find_match (base, boundaries) i edit =
    let needle = needle_of boundaries edit.old_text in
    let count = count_of base needle in
    if eqb count 0
    then refused (not_found i)
    else if ltb 1 count
    then refused (occurrences i count)
    else ok
        (match_at boundaries (value_or 0 (index_of base needle)) (length needle) edit.new_text i)

abbrev pub and_then : {A B : Type 0} → Edited A → (A → Edited B) → Edited B
and_then (ok a) f = f a
and_then (refused err) f = refused err

unfoldable pub find_matches : Searched → ℕ → List Edit → Edited (List EditMatch)
find_matches searched i [] = ok []
find_matches searched i (edit ∷ edits) =
    and_then (find_match searched i edit)
      λ m. and_then (find_matches searched (i + 1) edits) λ matches. ok (m ∷ matches)

-- sort.Slice by the index.
unfoldable pub insert_match : EditMatch → List EditMatch → List EditMatch
insert_match m [] = m ∷ []
insert_match m (n ∷ matches) =
    let rest = insert_match m matches in if leb m.index n.index then m ∷ n ∷ matches else n ∷ rest

unfoldable pub sort_matches : List EditMatch → List EditMatch
sort_matches [] = []
sort_matches (m ∷ matches) = insert_match m (sort_matches matches)

unfoldable pub check_overlap : List EditMatch → Option EditError
check_overlap [] = none
check_overlap (m ∷ []) = none
check_overlap (m ∷ n ∷ matches) =
    let rest = check_overlap (n ∷ matches) in
    if ltb n.index (m.index + m.size) then some (overlap m.edit_index n.edit_index) else rest

-- updated[:match.index] + match.newText + updated[match.index+match.length:]
unfoldable pub splice : EditMatch → Text → Text
splice m text = take m.index text ++ m.new_text ++ drop (m.index + m.size) text

-- The loop from the last match.
unfoldable pub splice_all : List EditMatch → Text → Text
splice_all [] text = text
splice_all (m ∷ matches) text = splice m (splice_all matches text)

unfoldable pub normalize_edits : ℕ → List Edit → Edited (List Edit)
normalize_edits i [] = ok []
normalize_edits i (edit ∷ edits) = elim (normalize_lf edit.old_text) [
  | [] ↦ refused (empty_old i)
  | c ∷ old ↦
      and_then (normalize_edits (i + 1) edits)
        λ rest. ok (record { old_text = c ∷ old; new_text = normalize_lf edit.new_text } ∷ rest)
]

unfoldable pub use_fuzzy : Text → List Edit → Bool
use_fuzzy base [] = false
use_fuzzy base (edit ∷ edits) = not (is_some (index_of base edit.old_text)) || use_fuzzy base edits

unfoldable pub searched_in : Bool → Text → Searched
searched_in true base =
    let (text, boundaries) = normalize_fuzzy_with_boundaries base in (text, some boundaries)
searched_in false base = (base, none)

-- What is made of a base without "\r".
unfoldable pub replace_sorted : Text → List EditMatch → Edited Text
replace_sorted base matches = elim (check_overlap matches) [
  | some err ↦ refused err
  | none ↦
      let updated = splice_all matches base in
      if same_text updated base then refused unchanged else ok updated
]

unfoldable pub replace_in : Text → List Edit → Edited Text
replace_in base edits =
    and_then (find_matches (searched_in (use_fuzzy base edits) base) 0 edits)
      λ matches. replace_sorted base (sort_matches matches)

abbrev pub byte_order_mark : ℕ
byte_order_mark = 65279

abbrev pub without_bom : Text → Text
without_bom [] = []
without_bom (c ∷ text) = if eqb c byte_order_mark then text else c ∷ text

abbrev pub bom_of : Text → Text
bom_of [] = []
bom_of (c ∷ text) = if eqb c byte_order_mark then byte_order_mark ∷ [] else []

abbrev pub with_line_ends : Bool → Text → Text
with_line_ends crlf text = if crlf then restore_crlf text else text

-- The new content of the file; the diff is made of the two texts between which it stands.
unfoldable pub apply_file_edits : Text → List Edit → Edited Text
apply_file_edits raw edits =
    let content = without_bom raw in
    and_then (normalize_edits 0 edits) λ normalized.
      and_then (replace_in (normalize_lf content) normalized)
        λ updated. ok (bom_of raw ++ with_line_ends (ends_crlf content) updated)
