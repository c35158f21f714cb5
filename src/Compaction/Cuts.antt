-- ===== src/Compaction/Cuts.antt =====
-- Where `prepareCompaction` of internal/engine/compaction.go cuts: bounds of its loops.
use ergo_agent.Prelude.{ℕ, zero, suc, ◌+◌, ◌-◌, ◌≤◌, String, Option, List, arith, value_or}
use ergo_agent.Prelude.Int.{ℤ}
use ergo_agent.Json.{Value}
use ergo_agent.Session.{Entry}
use ergo_agent.Compaction.{move_back, turn_start, cut_of, turn_of}

module _ (parse_time : String → Option ℤ) (raw_length : Option Value → ℕ) where
  boundary-le-move_back :
      (entries : List Entry) (boundary left : ℕ) → boundary ≤ move_back entries boundary left
  unfolding move_back
  boundary-le-move_back entries boundary zero = omega arith
  boundary-le-move_back entries boundary (suc left) =
      ground (arith, boundary-le-move_back entries boundary left)

  pub boundary-le-cut_of :
      (entries : List Entry) (keep boundary : ℕ) (cuts : List ℕ)
      → boundary ≤ cut_of parse_time raw_length entries keep boundary cuts
  unfolding cut_of
  boundary-le-cut_of entries keep boundary cuts = boundary-le-move_back entries boundary _

  turn_start_within :
      (entries : List Entry) (boundary cut left : ℕ)
      → boundary ≤ cut
      → boundary + left ≤ cut + 1
      → (boundary ≤ value_or cut (turn_start parse_time raw_length entries boundary left))
        × (value_or cut (turn_start parse_time raw_length entries boundary left) ≤ cut)
  unfolding turn_start
  turn_start_within entries boundary cut zero h l = omega arith
  turn_start_within entries boundary cut (suc left) h l =
      ground (arith, turn_start_within entries boundary cut left)

  -- The turn of the cut begins between the boundary and the cut.
  pub turn_of_within :
      (entries : List Entry) (boundary cut : ℕ)
      → boundary ≤ cut
      → (boundary ≤ value_or cut (turn_of parse_time raw_length entries boundary cut))
        × (value_or cut (turn_of parse_time raw_length entries boundary cut) ≤ cut)
  unfolding turn_of
  turn_of_within entries boundary cut h =
      ground (arith, turn_start_within entries boundary cut (cut + 1 - boundary))
