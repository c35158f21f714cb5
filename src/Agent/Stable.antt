-- ===== src/Agent/Stable.antt =====
-- Properties of a run of internal/engine/runtime.go that the bookkeeping of a turn leaves alone:
-- events, the choice of the model, the usage and the log of the requests.
use ergo_agent.Prelude.{
  String, Bool, true, false, ◌&&◌, ◌≡◌, refl, Option, none, some, List, [], ◌∷◌, ◌==◌, eqb,
  if◌then◌else◌,
}
use ergo_agent.Json.{Fields}
use ergo_agent.Message.{Message}
use ergo_agent.Session.Settings.{first}
use ergo_agent.Provider.{Request}
use ergo_agent.Agent.{
  AgentEvent, compaction_start, snapshot, agent_end, agent_settled, Setup, Outside, Run, Next,
  again, stop, and_next, say, Transformed, transformed, untransformed,
}
use ergo_agent.Agent.Turn.{
  tell, emit_next, unless_error, settled, ended, told, end_agent, select_model, with_transformed,
  transform_request,
}
use ergo_agent.Agent.Loop.{after_turn, save}

-- The start of a compaction after which the request is sent again.
abbrev pub is_recovery : AgentEvent → Bool
is_recovery (compaction_start reason will_retry) = will_retry
is_recovery _ = false

module _ {R : Type 0} where
  -- What holds when the loop goes on, and what holds when the function returns.
  abbrev pub Yields : (Run R → Type 0) → (Run R → Type 0) → Next R → Type 0
  Yields P Q (again run) = P run
  Yields P Q (stop run text err) = Q run

  abbrev pub Holds : (Run R → Type 0) → Next R → Type 0
  Holds P n = Yields P P n

  pub record IsStable (P : Run R → Type 0) : Type 0 where
    pub says : (e : AgentEvent) (run : Run R) → is_recovery e ≡ false → P run → P (say e run)
    pub selects :
        (provider_name model thinking : String) (run : Run R)
        → P run
        → P (record run { provider_name = provider_name; model = model; thinking = thinking })

  pub Yields-and_next :
      (P P' Q : Run R → Type 0) (n : Next R) (f : Run R → Next R)
      → Yields P Q n
      → ((run : Run R) → P run → Yields P' Q (f run))
      → Yields P' Q (and_next n f)
  Yields-and_next P P' Q (again run) f h k = k run h
  Yields-and_next P P' Q (stop run text err) f h k = h

  pub Yields-if :
      (P Q : Run R → Type 0) (test : Bool) (n n' : Next R)
      → (test ≡ true → Yields P Q n)
      → (test ≡ false → Yields P Q n')
      → Yields P Q (if test then n else n')
  Yields-if P Q true n n' h k = h refl
  Yields-if P Q false n n' h k = k refl

  module _ (P Q : Run R → Type 0) (stable : IsStable Q) (setup : Setup R) (o : Outside R) where
    pub Yields-unless_error :
        (err : Option String) (run : Run R) (f : Run R → Next R)
        → Q run
        → Yields P Q (f run)
        → Yields P Q (unless_error setup o err run f)
    Yields-unless_error none run f h k = k
    Yields-unless_error (some err) run f h k = h

    Yields-emit_next :
        (e : AgentEvent) (run : Run R) (f : Run R → Next R)
        → Q run
        → Yields P Q (f (say e run))
        → Yields P Q (emit_next setup o e run f)
    unfolding emit_next
    Yields-emit_next e run f h k = Yields-unless_error (o.emit_error e) run (λ r. f (say e r)) h k

    pub Yields-end_agent :
        (m : Message) (cause : Option String) (text : String) (err : Option String) (run : Run R)
        → Q run
        → Yields P Q (end_agent setup o m cause text err run)
    unfolding end_agent
    Yields-end_agent m cause text err run h =
        let told' = say (agent_end run.messages) run in
        let h' : Q told' = stable.says (agent_end run.messages) run refl h in
        Yields-unless_error (tell setup o o.on_agent_end run m cause) run
          (told setup o m cause text err) h
          (Yields-emit_next (agent_end run.messages) run (ended setup o m cause text err) h (
            Yields-unless_error (tell setup o o.on_agent_settled told' m cause) told'
              (settled setup o m cause text err) h'
              (Yields-emit_next agent_settled told' (λ s. stop s text err) h'
                (stable.says agent_settled told' refl h'))))

    pub Yields-select_model :
        IsStable P → (run : Run R) → P run → Q run → Yields P Q (select_model setup o run)
    unfolding select_model
    Yields-select_model p run h q =
        let provider_name = first o.overrides.provider run.provider_name in
        let model = first o.overrides.model run.model in
        let thinking = first o.overrides.thinking run.thinking in
        let selected = record run {
          provider_name = provider_name;
          model = model;
          thinking = thinking;
        } in
        Yields-if P Q (provider_name == run.provider_name && model == run.model)
          (again (record run { thinking = thinking }))
          (unless_error setup o (o.provider_error provider_name model) run (λ r. again selected))
          (λ t. p.selects run.provider_name run.model thinking run h)
          (λ t.
            Yields-unless_error (o.provider_error provider_name model) run (λ r. again selected) q
              (p.selects provider_name model thinking run h))

    Yields-with_transformed :
        (t : Transformed R) (run : Run R) (request : Request R) (f : Request R → Next R)
        → Q run
        → ((r : Request R) → Yields P Q (f r))
        → Yields P Q (with_transformed setup o t run request f)
    Yields-with_transformed (untransformed err) run request f h k = h
    Yields-with_transformed (transformed system messages tools) run request f h k =
        k (record request { system = system; messages = messages; tools = tools })

    pub Yields-transform_request :
        (hooks : List (Option (Request R → Transformed R))) (run : Run R) (request : Request R)
        (f : Request R → Next R)
        → Q run
        → ((r : Request R) → Yields P Q (f r))
        → Yields P Q (transform_request setup o hooks run request f)
    unfolding transform_request
    Yields-transform_request [] run request f h k = k request
    Yields-transform_request (none ∷ hooks) run request f h k =
        Yields-transform_request hooks run request f h k
    Yields-transform_request (some hook ∷ hooks) run request f h k =
        Yields-with_transformed (hook request) run request
          (λ r. transform_request setup o hooks run r f) h
          (λ r. Yields-transform_request hooks run r f h k)

    pub Yields-after_turn :
        (hooks : List (Option (Message → Option Fields → Option String))) (m : Message)
        (run : Run R) (f : Run R → Next R)
        → Q run
        → Yields P Q (f run)
        → Yields P Q (after_turn setup o hooks m run f)
    unfolding after_turn
    Yields-after_turn [] m run f h k = k
    Yields-after_turn (none ∷ hooks) m run f h k = Yields-after_turn hooks m run f h k
    Yields-after_turn (some hook ∷ hooks) m run f h k =
        Yields-unless_error (hook m run.usage) run (λ r. after_turn setup o hooks m r f) h
          (Yields-after_turn hooks m run f h k)

    pub Yields-save :
        (run : Run R) (f : Run R → Next R)
        → Q run
        → Yields P Q (f run)
        → Yields P Q (f (say snapshot run))
        → Yields P Q (save setup o run f)
    unfolding save
    Yields-save run f q h k =
        Yields-if P Q (eqb setup.depth 0) (emit_next setup o snapshot run f) (f run)
          (λ t. Yields-emit_next snapshot run f q k) (λ t. h)
