-- ===== src/Tools/Pilscan/Walk.antt =====
-- pilscan/main.go: parseBlock takes no finding back.
use fabric_hris.Prelude.{
  ℕ, suc, Text, Bytes, ◌==◌, nat_eq, inl, inr, subst, Bool, true, false, Bool-cases, List, [], ◌∷◌,
  if◌then◌else◌,
}
use fabric_hris.Tools.Pilscan.Findings.{ChannelStats, run_check, for_each, decoded}
use fabric_hris.Tools.Pilscan.Checks.{Json, check_record_json}
use fabric_hris.Tools.Pilscan.Block.{
  Protos, Write, Event, check_write, write_location, write_leak, event_location, event_leak,
  check_namespace, check_event, check_results, check_events, check_response, check_input,
  check_proposal, check_action, check_typed, endorser_counted, config_counted, check_envelope,
  chaincode_name,
}
use fabric_hris.Tools.Pilscan.Quiet.{
  Quiet, KeepsFindings, run_check-Quiet, for_each-KeepsFindings, decoded-KeepsFindings,
  check_record_json-KeepsFindings, check_args-KeepsFindings,
}

when-KeepsFindings :
    (b : Bool) (f : ChannelStats → ChannelStats) (s : ChannelStats)
    → KeepsFindings f
    → Quiet (if b then f s else s)
    → Quiet s
when-KeepsFindings true f s keeps e = keeps s e
when-KeepsFindings false f s keeps e = e

module _ (json : Json) (p : Protos) (block : ℕ) where
  check_write-KeepsFindings :
      (namespace : Text) (w : Write) → KeepsFindings (check_write json p block namespace w)
  unfolding check_write
  check_write-KeepsFindings namespace w s e =
      let here = write_location json p block namespace w in
      let s' = record s { world_state_writes = suc s.world_state_writes } in
      let leaks = write_leak json p block w in
      ((run_check-Quiet block here leaks s').0 (
        when-KeepsFindings (namespace == chaincode_name) (check_record_json json block here w.value)
          (run_check block here leaks s') (check_record_json-KeepsFindings json block here w.value)
          e)).1

  check_namespace-KeepsFindings :
      (n : Text × Bytes) → KeepsFindings (check_namespace json p block n)
  unfolding check_namespace
  check_namespace-KeepsFindings (namespace, set) =
      decoded-KeepsFindings (p.writes set) (for_each (check_write json p block namespace)) (
        for_each-KeepsFindings (check_write json p block namespace)
          (check_write-KeepsFindings namespace))

  check_results-KeepsFindings :
      (results : Bytes) → KeepsFindings (check_results json p block results)
  unfolding check_results
  check_results-KeepsFindings [] = λ s e. e
  check_results-KeepsFindings (b ∷ results) =
      decoded-KeepsFindings (p.read_write_set (b ∷ results))
        (for_each (check_namespace json p block))
        (for_each-KeepsFindings (check_namespace json p block) check_namespace-KeepsFindings)

  check_event-KeepsFindings : (event : Event) → KeepsFindings (check_event json p block event)
  unfolding check_event
  check_event-KeepsFindings event s e =
      let here = event_location json p block event in
      let leaks = event_leak json p block event in
      let s' = record s { events_checked = suc s.events_checked } in
      ((run_check-Quiet block here leaks s').0 (
        check_record_json-KeepsFindings json block here event.payload
          (run_check block here leaks s') e)).1

  check_events-KeepsFindings : (events : Bytes) → KeepsFindings (check_events json p block events)
  unfolding check_events
  check_events-KeepsFindings [] = λ s e. e
  check_events-KeepsFindings (b ∷ events) =
      decoded-KeepsFindings (p.event (b ∷ events)) (check_event json p block)
        check_event-KeepsFindings

  check_response-KeepsFindings :
      (response : Bytes) → KeepsFindings (check_response json p block response)
  unfolding check_response
  check_response-KeepsFindings response =
      decoded-KeepsFindings (p.response_payload response) _ λ extension.
        decoded-KeepsFindings (p.chaincode_action extension) _ λ action s e.
          check_results-KeepsFindings action.results s (
            check_events-KeepsFindings action.events (check_results json p block action.results s)
              e)

  check_input-KeepsFindings : (args : List Bytes) → KeepsFindings (check_input json p block args)
  unfolding check_input
  check_input-KeepsFindings [] s e = e
  check_input-KeepsFindings (fn ∷ args) s e =
      check_args-KeepsFindings json block fn args
        (record s { chaincode_invocations = suc s.chaincode_invocations }) e

  check_proposal-KeepsFindings :
      (proposal : Bytes) → KeepsFindings (check_proposal json p block proposal)
  unfolding check_proposal
  check_proposal-KeepsFindings proposal =
      decoded-KeepsFindings (p.proposal_payload proposal) _ λ input.
        decoded-KeepsFindings (p.invocation_spec input) (check_input json p block)
          check_input-KeepsFindings

  check_action-KeepsFindings : (payload : Bytes) → KeepsFindings (check_action json p block payload)
  unfolding check_action
  check_action-KeepsFindings payload = decoded-KeepsFindings (p.action_payload payload) _ λ a s e.
      check_proposal-KeepsFindings a.proposal s
        (check_response-KeepsFindings a.response (check_proposal json p block a.proposal s) e)

  check_typed-KeepsFindings :
      (type : ℕ) (content : Bytes) → KeepsFindings (check_typed json p block type content)
  unfolding check_typed
  check_typed-KeepsFindings type content s e =
      elim (Bool-cases (nat_eq type p.endorser_transaction)) [
        | inl ours ↦
            decoded-KeepsFindings (p.transaction content) (for_each (check_action json p block))
              (for_each-KeepsFindings (check_action json p block) check_action-KeepsFindings)
              (endorser_counted s)
              (subst
                (λ b. Quiet (
                  if b
                  then decoded (p.transaction content) (for_each (check_action json p block))
                      (endorser_counted s)
                  else config_counted s))
                ours e)
        | inr other ↦
            subst
              (λ b. Quiet (
                if b
                then decoded (p.transaction content) (for_each (check_action json p block))
                    (endorser_counted s)
                else config_counted s))
              other e
      ]

  pub check_envelope-KeepsFindings :
      (envelope : Bytes) → KeepsFindings (check_envelope json p block envelope)
  unfolding check_envelope
  check_envelope-KeepsFindings envelope = decoded-KeepsFindings (p.envelope envelope) _ λ payload.
      decoded-KeepsFindings (p.payload payload) _ λ body.
        decoded-KeepsFindings (p.channel_header body.channel_header) _
          λ type. check_typed-KeepsFindings type body.content
