-- ===== src/Operation/Navigated.antt =====
-- navigate_tree and summarizeAbandonedBranch of internal/engine.
use ergo_agent.Prelude.{
  ℕ, String, false, ◌≡◌, refl, Option, none, some, List, [], ◌∷◌, ◌++◌, ◌==◌, ◌⊎◌, inl, inr, length,
}
use ergo_agent.Prelude.Int.{ℤ}
use ergo_agent.Json.{Value, get}
use ergo_agent.Message.{Message}
use ergo_agent.Provider.{Request, Completion, Reply, Failure, completed, failed}
use ergo_agent.Session.{Session, by_id, branch, new_entry}
use ergo_agent.Session.Append.{branch_from_leaf, branch-append_entry}
use ergo_agent.Compaction.Entries.{messages_of}
use ergo_agent.Compaction.Run.{answered}
use ergo_agent.Operation.{
  Command, Execution, Operated, append_fresh, last_id, abandoned, branch_request,
  branch_summary_payload, with_branch_summary, summarize_messages, summarize_abandoned_branch,
}

module _ {R : Type 0} (fresh : ℕ → String × String) (parse_time : String → Option ℤ)
    (raw : Option Value → String) (provider_error : Option String) (complete : Request R → Reply)
    (emit_error : String → Option String) (c : Command) (target : String) (e : Execution) where
  abbrev moved : Session
  moved = record e.session { leaf_id = target }

  -- There is no provider, or the request about the messages failed, with the error.
  abbrev pub IsRefused : List Message → String → Type 0
  IsRefused messages err =
      (provider_error ≡ some err)
      ⊎ ((failure : Failure) × (complete
              (branch_request fresh parse_time raw provider_error complete emit_error c messages)
            ≡ failed failure)
          × (failure.text ≡ err))

  -- The provider has answered the request about the messages, and the branch is that of the target
  -- with the summary of that answer.
  abbrev pub IsSummarized : List Message → Execution → Type 0
  IsSummarized messages e' =
      (completion : Completion) × (complete
          (branch_request fresh parse_time raw provider_error complete emit_error c messages)
        ≡ completed completion)
      × (branch e'.session
          ≡ branch_from_leaf (record e.session { leaf_id = target })
            ++ new_entry target (fresh (length e.session.entries)).0
                (fresh (length e.session.entries)).1 "branch_summary"
                (branch_summary_payload fresh parse_time raw provider_error complete emit_error
                  (last_id (branch e.session)) completion)
              ∷ [])

  -- What the function leaves, for the messages of the branch that is left.
  abbrev pub Left : List Message → Operated → Type 0
  Left messages (e', some err) =
      ((e' ≡ e) × IsRefused messages err)
      ⊎ ((emit_error "session.branch_summarized" ≡ some err) × IsSummarized messages e')
  Left messages (e', none) =
      ((messages ≡ []) × (e'.session ≡ record e.session { leaf_id = target }))
      ⊎ ((emit_error "session.branch_summarized" ≡ none) × IsSummarized messages e')

  module _ (named : ((fresh (length e.session.entries)).0 == "") ≡ false)
      (unused : by_id e.session.entries (fresh (length e.session.entries)).0 ≡ none) where
    emitted_Left :
        (messages : List Message) (e' : Execution) (o : Option String)
        → emit_error "session.branch_summarized" ≡ o
        → IsSummarized messages e'
        → Left messages (e', o)
    emitted_Left messages e' (some err) h s = inr (h, s)
    emitted_Left messages e' none h s = inr (h, s)

    summarized-Left :
        (messages : List Message) (r : Reply)
        → complete
            (branch_request fresh parse_time raw provider_error complete emit_error c messages)
          ≡ r
        → Left messages (
            with_branch_summary fresh parse_time raw provider_error complete emit_error target
              (answered r)
              e)
    unfolding append_fresh
    summarized-Left messages (failed failure) h = inl (refl, inr (failure, h, refl))
    summarized-Left messages (completed completion) h =
        emitted_Left messages _ (emit_error "session.branch_summarized") refl (
          completion,
          h,
          branch-append_entry moved _ _ "branch_summary" _ named unused (no_id completion)
              (no_parent completion),
        )
      where
        no_id :
            (k : Completion)
            → get "id" (
                branch_summary_payload fresh parse_time raw provider_error complete emit_error
                  (last_id (branch e.session))
                  k)
              ≡ none
        no_id k = unfold branch_summary_payload in unfold get in refl

        no_parent :
            (k : Completion)
            → get "parentId" (
                branch_summary_payload fresh parse_time raw provider_error complete emit_error
                  (last_id (branch e.session))
                  k)
              ≡ none
        no_parent k = unfold branch_summary_payload in unfold get in refl

    with_provider :
        (o : Option String) (messages : List Message)
        → provider_error ≡ o
        → Left messages (
            with_branch_summary fresh parse_time raw provider_error complete emit_error target
              (elim o [
                | some err ↦ inl err
                | none ↦ answered (
                    complete (
                      branch_request fresh parse_time raw provider_error complete emit_error c
                        messages))
              ])
              e)
    with_provider (some err) messages h = inl (refl, inl h)
    with_provider none messages h = summarized-Left messages _ refl

    summarize_messages-Left :
        (messages : List Message)
        → Left messages (
            summarize_messages fresh parse_time raw provider_error complete emit_error c target
              messages e)
    summarize_messages-Left [] = inl (refl, refl)
    summarize_messages-Left (m ∷ messages) = with_provider provider_error (m ∷ messages) refl

    -- With a new id that is not empty, summarizeAbandonedBranch does one of three things: it leaves
    -- the execution as it was and returns the error for a missing provider or of the request about
    -- the messages of the entries that are left behind; or it moves the leaf to the target without
    -- an error, when these entries hold no messages; or the provider has answered that request, the
    -- branch is that of the target with one entry more, the summary of that answer, and the result
    -- is that of the final emit, an error included.
    pub summarize_abandoned_branch-Left :
        Left
          (messages_of parse_time
            (abandoned fresh parse_time raw provider_error complete emit_error target e.session))
          (summarize_abandoned_branch fresh parse_time raw provider_error complete emit_error c
            target e)
    unfolding summarize_abandoned_branch
    summarize_abandoned_branch-Left = summarize_messages-Left _
