-- ===== src/Journal/Sequence.antt =====
-- Runs of `emit` of internal/engine/runtime.go: the numbers of the events and the failures of the
-- pipeline.
use ergo_agent.Prelude.{
  ℕ, suc, ◌+◌, ◌≤◌, ◌<◌, ◌%◌, ◌^◌, String, true, ◌≡◌, refl, subst, sym, ◌∙◌, ap, Option, none, some,
  List, [], ◌∷◌, ◌++◌, length, length-snoc, arith, Option-cases, inl, inr,
}
use ergo_agent.Json.{Fields}
use ergo_agent.Journal.{
  Extension, Event, Journal, Hooked, passed, failed, run_extensions, fail_event_pipeline, deliver,
  emit_at, emit, emit_all,
}

-- The events are numbered from `n` on, without a gap.
abbrev pub Numbered : ℕ → List Event → Type 0
Numbered n [] = Unit
Numbered n (e ∷ events) = (e.sequence ≡ n) × Numbered (n + 1) events

Numbered-snoc :
    (n : ℕ) (events : List Event) (e : Event)
    → Numbered n events
    → e.sequence ≡ n + length events
    → Numbered n (events ++ e ∷ [])
Numbered-snoc n [] e h q = (omega arith, tt)
Numbered-snoc n (a ∷ events) e (h, t) q = (h, Numbered-snoc (n + 1) events e t (omega arith))

-- The state of the journal between two calls: while nothing failed, the counter is the number of
-- delivered events; a failure has cancelled the run.
pub record IsJournal (j : Journal) : Type 0 where
  pub numbered : Numbered 1 j.delivered
  pub counted : j.event_err ≡ none → j.sequence ≡ length j.delivered
  pub stopped : (err : String) → j.event_err ≡ some err → j.cancelled ≡ true

-- All calls return that error.
abbrev pub AllFail : String → List (Option String) → Type 0
AllFail err [] = Unit
AllFail err (r ∷ rs) = (r ≡ some err) × AllFail err rs

-- Calls succeed up to the first failure, and all calls after it return its error.
abbrev pub OneFailure : List (Option String) → Type 0
OneFailure [] = Unit
OneFailure (none ∷ rs) = OneFailure rs
OneFailure (some err ∷ rs) = AllFail err rs

abbrev pub successes : List (Option String) → ℕ
successes [] = 0
successes (none ∷ rs) = suc (successes rs)
successes (some err ∷ rs) = successes rs

successes-AllFail : (err : String) (rs : List (Option String)) → AllFail err rs → successes rs ≡ 0
successes-AllFail err [] h = refl
successes-AllFail err (none ∷ rs) (h, t) = cc
successes-AllFail err (some e ∷ rs) (h, t) = successes-AllFail err rs t

module _ (extensions : List Extension) (sink : Event → Option String) where
  deliver-IsJournal :
      (hooked : Hooked) (kind : String) (j : Journal)
      → Numbered 1 j.delivered
      → j.sequence ≡ length j.delivered + 1
      → j.event_err ≡ none
      → IsJournal (deliver extensions sink hooked kind j).0
  unfolding deliver fail_event_pipeline
  deliver-IsJournal (failed err) kind j n c e = record {
    numbered = n;
    counted = λ q. cc;
    stopped = λ x q. refl;
  }
  deliver-IsJournal (passed payload) kind j n c e =
      let event : Event = record { kind = kind; sequence = j.sequence; payload = payload } in
      elim (Option-cases (sink event)) [
        | inl a ↦
            rw (a, deliver)
              (record {
                numbered = Numbered-snoc 1 j.delivered event n (omega arith);
                counted = λ q. omega (arith, length-snoc j.delivered event);
                stopped = λ x q. cc;
              })
        | inr (err, a) ↦
            rw (a, deliver) (record { numbered = n; counted = λ q. cc; stopped = λ x q. refl })
      ]

  sequence-deliver :
      (hooked : Hooked) (kind : String) (j : Journal)
      → (deliver extensions sink hooked kind j).0.sequence ≡ j.sequence
  unfolding deliver fail_event_pipeline
  sequence-deliver hooked kind j = ground arith

  emit_at-IsJournal :
      (err : Option String) (kind : String) (payload : Fields) (j : Journal)
      → j.event_err ≡ err
      → IsJournal j
      → j.sequence + 1 < 2 ^ 64
      → IsJournal (emit_at extensions sink err kind payload j).0
        × ((emit_at extensions sink err kind payload j).0.sequence ≤ j.sequence + 1)
  unfolding emit_at
  emit_at-IsJournal (some err) kind payload j e i h = (i, omega arith)
  emit_at-IsJournal none kind payload j e i h =
      let j' : Journal = record j { sequence = (j.sequence + 1) % 2 ^ 64 } in
      let hooked = run_extensions extensions kind payload in
      let counted = i.counted e in
      (
        deliver-IsJournal hooked kind j' i.numbered (omega arith) e,
        omega (arith, sequence-deliver hooked kind j'),
      )

  emit-IsJournal :
      (kind : String) (payload : Fields) (j : Journal)
      → IsJournal j
      → j.sequence + 1 < 2 ^ 64
      → IsJournal (emit extensions sink kind payload j).0
        × ((emit extensions sink kind payload j).0.sequence ≤ j.sequence + 1)
  unfolding emit
  emit-IsJournal kind payload j i h = emit_at-IsJournal j.event_err kind payload j refl i h

  -- As long as the 64-bit counter does not wrap, any calls of emit leave the delivered events
  -- numbered 1, 2, 3, … in their order with no gap, and an error in the journal has cancelled the
  -- run.
  pub emit_all-IsJournal :
      (events : List (String × Fields)) (j : Journal)
      → IsJournal j
      → j.sequence + length events < 2 ^ 64
      → IsJournal (emit_all extensions sink events j).0
  unfolding emit_all
  emit_all-IsJournal [] j i h = i
  emit_all-IsJournal ((kind, payload) ∷ events) j i h =
      let (i', le) = emit-IsJournal kind payload j i (omega arith) in
      emit_all-IsJournal events (emit extensions sink kind payload j).0 i' (omega arith)

  -- What a call returns, and what it leaves: a success delivers one event more and no error, a
  -- failure delivers nothing and is the error of the journal from then on.
  record Emitted (j j' : Journal) (err : Option String) : Type 0 where
    error : j'.event_err ≡ err
    delivered : length j'.delivered ≡ length j.delivered + successes (err ∷ [])

  deliver-Emitted :
      (hooked : Hooked) (kind : String) (j : Journal)
      → j.event_err ≡ none
      → Emitted j
          (deliver extensions sink hooked kind j).0
          (deliver extensions sink hooked kind j).1
  unfolding deliver fail_event_pipeline
  deliver-Emitted (failed err) kind j e = record { error = refl; delivered = omega arith }
  deliver-Emitted (passed payload) kind j e =
      let event : Event = record { kind = kind; sequence = j.sequence; payload = payload } in
      elim (Option-cases (sink event)) [
        | inl a ↦
            rw (a, deliver)
              (record { error = e; delivered = omega (arith, length-snoc j.delivered event) })
        | inr (err, a) ↦ rw (a, deliver) (record { error = refl; delivered = omega arith })
      ]

  emit_at-Emitted :
      (err : Option String) (kind : String) (payload : Fields) (j : Journal)
      → j.event_err ≡ err
      → Emitted j
          (emit_at extensions sink err kind payload j).0
          (emit_at extensions sink err kind payload j).1
  unfolding emit_at
  emit_at-Emitted (some err) kind payload j e = record { error = e; delivered = omega arith }
  emit_at-Emitted none kind payload j e =
      let r =
        deliver-Emitted (run_extensions extensions kind payload) kind
          (record j { sequence = (j.sequence + 1) % 2 ^ 64 }) e in
      record { error = r.error; delivered = r.delivered }

  emit_at-some :
      (j : Journal) (err : String) (kind : String) (payload : Fields)
      → j.event_err ≡ some err
      → emit_at extensions sink j.event_err kind payload j ≡ (j, some err)
  unfolding emit_at
  emit_at-some j err kind payload e = ground arith

  -- Once the pipeline failed, calls change nothing and return that error.
  emit_all-failed :
      (events : List (String × Fields)) (j : Journal) (err : String)
      → j.event_err ≡ some err
      → ((emit_all extensions sink events j).0 ≡ j)
        × AllFail err (emit_all extensions sink events j).1
  unfolding emit_all emit
  emit_all-failed [] j err e = (refl, tt)
  emit_all-failed ((kind, payload) ∷ events) j err e =
      let q = emit_at-some j err kind payload e in
      let (r, a) = emit_all-failed events j err e in
      (
        ap (λ (t : Journal × Option String). (emit_all extensions sink events t.0).0) q ∙ r,
        (
          ap (λ (t : Journal × Option String). t.1) q,
          subst
              (λ (t : Journal × Option String). AllFail err (emit_all extensions sink events t.0).1)
              (sym q) a,
        ),
      )

  emit-Emitted :
      (kind : String) (payload : Fields) (j : Journal)
      → Emitted j (emit extensions sink kind payload j).0 (emit extensions sink kind payload j).1
  unfolding emit
  emit-Emitted kind payload j = emit_at-Emitted j.event_err kind payload j refl

  -- From a journal without an error, the calls of emit succeed up to the first failure, all calls
  -- after it return that same error, and exactly as many events are delivered as calls succeeded.
  pub emit_all-OneFailure :
      (events : List (String × Fields)) (j : Journal)
      → j.event_err ≡ none
      → OneFailure (emit_all extensions sink events j).1
        × (length (emit_all extensions sink events j).0.delivered
            ≡ length j.delivered + successes (emit_all extensions sink events j).1)
  unfolding emit_all
  emit_all-OneFailure [] j e = (tt, omega arith)
  emit_all-OneFailure ((kind, payload) ∷ events) j e =
      let m = emit-Emitted kind payload j in
      let j' = (emit extensions sink kind payload j).0 in
      elim (Option-cases (emit extensions sink kind payload j).1) [
        | inl a ↦
            let (f, n) = emit_all-OneFailure events j' (m.error ∙ a) in
            rw a (f, omega (arith, n, rw a at m.delivered))
        | inr (err, a) ↦
            let (r, f) = emit_all-failed events j' err (m.error ∙ a) in
            rw a (
              f,
              omega (
                arith,
                ap (λ (t : Journal). length t.delivered) r,
                rw a at m.delivered,
                successes-AllFail err (emit_all extensions sink events j').1 f,
              ),
            )
      ]
