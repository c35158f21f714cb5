-- ===== src/Session/Settings/PlanMode.antt =====
-- The plan mode of a branch: `effectivePlanMode` of internal/engine/runtime.go.
use ergo_agent.Prelude.{
  Bool, true, false, ◌≡◌, refl, sym, Option, none, some, value_or, List, [], ◌∷◌, ◌++◌, arith,
  if◌then◌else◌, Bool-cases, inl, inr, ap, ◌∙◌,
}
use ergo_agent.Json.{Value, str, obj, null, Fields, get, is_text}
use ergo_agent.Message.{Message}
use ergo_agent.Message.Codec.{decode_message}
use ergo_agent.Session.{Entry}
use ergo_agent.Session.Settings.{
  Settings, no_settings, flag, with_modes, with_plan, from_answer, restore_custom, restore_entry,
  restore_from, restore_settings, effective_plan_mode,
}

pub restore_from-append :
    (a b : List Entry) (s : Settings) → restore_from (a ++ b) s ≡ restore_from b (restore_from a s)
unfolding restore_from
restore_from-append [] b s = refl
restore_from-append (e ∷ a) b s = restore_from-append a b (restore_entry e s)

-- The entries that leave the plan mode alone.
abbrev pub keeps_plan : Entry → Bool
keeps_plan e =
    if is_text (get "type" e) "custom"
    then (if is_text (get "customType" e) "plan-mode" then false else true)
    else true

abbrev pub all_keep_plan : List Entry → Bool
all_keep_plan [] = true
all_keep_plan (e ∷ entries) = if keeps_plan e then all_keep_plan entries else false

with_modes-plan :
    (v : Option Value) (s : Settings)
    → ((with_modes v s).plan_mode ≡ s.plan_mode)
      × ((with_modes v s).plan_mode_set ≡ s.plan_mode_set)
with_modes-plan (some (obj d)) s = (refl, refl)
with_modes-plan _ s = (refl, refl)

from_answer-plan :
    (o : Option Message) (s : Settings)
    → ((from_answer o s).plan_mode ≡ s.plan_mode)
      × ((from_answer o s).plan_mode_set ≡ s.plan_mode_set)
from_answer-plan none s = (refl, refl)
from_answer-plan (some m) s = ground arith

restore_entry-plan :
    (e : Entry) (s : Settings)
    → keeps_plan e ≡ true
    → ((restore_entry e s).plan_mode ≡ s.plan_mode)
      × ((restore_entry e s).plan_mode_set ≡ s.plan_mode_set)
unfolding restore_entry restore_custom
restore_entry-plan e s h = ground (
  arith,
  with_modes-plan (get "data" e) s,
  from_answer-plan (decode_message (value_or null (get "message" e))) s,
)

absurd_test : true ≡ false → ⊥
absurd_test h = cc

all_keep_plan-head :
    (e : Entry) (entries : List Entry)
    → keeps_plan e ≡ false
    → all_keep_plan (e ∷ entries) ≡ true
    → ⊥
all_keep_plan-head e entries k h =
    absurd_test (sym h ∙ ap (λ b. if b then all_keep_plan entries else false) k)

restore_from-plan :
    (entries : List Entry) (s : Settings)
    → all_keep_plan entries ≡ true
    → ((restore_from entries s).plan_mode ≡ s.plan_mode)
      × ((restore_from entries s).plan_mode_set ≡ s.plan_mode_set)
unfolding restore_from
restore_from-plan [] s h = (refl, refl)
restore_from-plan (e ∷ entries) s h = elim (Bool-cases (keeps_plan e)) [
  | inl k ↦
      let (a, b) = restore_from-plan entries (restore_entry e s) (cc (h, k)) in
      let (c, d) = restore_entry-plan e s k in (a ∙ c, b ∙ d)
  | inr k ↦ absurd (all_keep_plan-head e entries k h)
]

restore_entry-plan_mode :
    (e : Entry) (d : Fields) (s : Settings)
    → get "type" e ≡ some (str "custom")
    → get "customType" e ≡ some (str "plan-mode")
    → get "data" e ≡ some (obj d)
    → restore_entry e s ≡ with_plan (some (obj d)) s
unfolding restore_entry restore_custom
restore_entry-plan_mode e d s t c h = cc (t, c, h)

-- When the command does not specify the plan mode, the last entry of the branch that sets it with
-- an object decides, whatever stands before it and after it.
pub effective_plan_mode-last :
    (plan_mode : Bool) (before later : List Entry) (e : Entry) (d : Fields)
    → get "type" e ≡ some (str "custom")
    → get "customType" e ≡ some (str "plan-mode")
    → get "data" e ≡ some (obj d)
    → all_keep_plan later ≡ true
    → effective_plan_mode false plan_mode (before ++ e ∷ later) ≡ flag (get "enabled" d)
unfolding effective_plan_mode restore_settings restore_from
effective_plan_mode-last plan_mode before later e d t c h k =
    let s = restore_from before no_settings in
    let (a, b) = restore_from-plan later (with_plan (some (obj d)) s) k in
    cc (
      restore_from-append before (e ∷ later) no_settings,
      restore_entry-plan_mode e d s t c h,
      a,
      b,
    )
