-- ===== src/Gateway/Stream/Answers.antt =====
-- The answer that run puts together from the events of a stream.
use repo_agent.Prelude.{
  ◌≡◌, refl, sym, ap, ◌∙◌, Bool, true, false, List, [], ◌∷◌, ◌++◌, map, append_assoc, append-nil,
  if◌then◌else◌,
}
use repo_agent.Prelude.Int.{ℤ}
use repo_agent.Prelude.Json.{Json, str, object, Fields, get_field, dict}
use repo_agent.Prelude.Words.{Text}
use repo_agent.Gateway.Events.{
  EventKind, routing, agent_result, answer, done, ChatEvent, chunk_text,
}
use repo_agent.Gateway.Events.Chunks.{joined, joined-append, joined-chunk_text}
use repo_agent.Gateway.Payload.{Payload, ParsedPayload, payload_fields, done_payload, dict_or_empty}
use repo_agent.Gateway.Stream.{
  Signal, token, routing_event, agent_event, other_event, returned, answer_event, queued, queue,
  streamed_answer, streamed_routing, answer_events, finish, stream_live,
}
use repo_agent.Gateway.Stream.Routing.{
  event, emit_routing_and_agent, routing_events, iteration_event, single_event, agent_event_of,
  iterations_of, fields_of,
}
use repo_agent.Gateway.Run.{Collected, add_part, collect_as, collect, nothing_yet}

-- The text of an event, if it is a chunk of the answer.
part : EventKind → Fields → Text
unfolding add_part get_field joined
part answer fs = joined (add_part (get_field "chunk" fs) [])
part k fs = []

answer_in_events : List ChatEvent → Text
unfolding part
answer_in_events [] = []
answer_in_events (e ∷ es) = part e.type e.data_of ++ answer_in_events es

joined-add_part :
    (v : Json) (ts : List Text) → joined (add_part v ts) ≡ joined ts ++ joined (add_part v [])
unfolding joined add_part
joined-add_part (str t) ts = joined-append ts (t ∷ [])
joined-add_part v ts = sym (append-nil (joined ts))

collect_as-part :
    (k : EventKind) (fs : Fields) (c : Collected)
    → joined (collect_as k fs c).answer_parts ≡ joined c.answer_parts ++ part k fs
unfolding collect_as part
collect_as-part routing fs c = sym (append-nil (joined c.answer_parts))
collect_as-part agent_result fs c = sym (append-nil (joined c.answer_parts))
collect_as-part answer fs c = joined-add_part (get_field "chunk" fs) c.answer_parts
collect_as-part done fs c = sym (append-nil (joined c.answer_parts))

collect-joined :
    (es : List ChatEvent) (c : Collected)
    → joined (collect es c).answer_parts ≡ joined c.answer_parts ++ answer_in_events es
unfolding collect answer_in_events
collect-joined [] c = sym (append-nil (joined c.answer_parts))
collect-joined (e ∷ es) c =
    collect-joined es (collect_as e.type e.data_of c)
    ∙ (ap (λ t. t ++ answer_in_events es) (collect_as-part e.type e.data_of c)
        ∙ append_assoc (joined c.answer_parts) (part e.type e.data_of) (answer_in_events es))

answer_in_events-append :
    (xs ys : List ChatEvent)
    → answer_in_events (xs ++ ys) ≡ answer_in_events xs ++ answer_in_events ys
unfolding answer_in_events
answer_in_events-append [] ys = refl
answer_in_events-append (e ∷ es) ys =
    ap (◌++◌ (part e.type e.data_of)) (answer_in_events-append es ys)
    ∙ sym (append_assoc (part e.type e.data_of) (answer_in_events es) (answer_in_events ys))

-- The tokens of the callbacks, joined.
unfoldable pub said : List Signal → Text
said [] = []
said (token t ∷ ss) = t ++ said ss
said (s ∷ ss) = said ss

answer_in_events-queued :
    (cid : Text) (s : Signal) → answer_in_events (queued cid s) ≡ said (s ∷ [])
unfolding answer_in_events queued said answer_event event part add_part get_field joined dict
answer_in_events-queued cid (token []) = refl
answer_in_events-queued cid (token (c ∷ s)) = append-nil ((c ∷ s) ++ [])
answer_in_events-queued cid (routing_event fs) = refl
answer_in_events-queued cid (agent_event fs) = refl
answer_in_events-queued cid (other_event fs) = refl

said-cons : (s : Signal) (ss : List Signal) → said (s ∷ ss) ≡ said (s ∷ []) ++ said ss
unfolding said
said-cons (token t) ss = ap (λ u. u ++ said ss) (sym (append-nil t))
said-cons (routing_event fs) ss = refl
said-cons (agent_event fs) ss = refl
said-cons (other_event fs) ss = refl

answer_in_events-queue : (cid : Text) (ss : List Signal) → answer_in_events (queue cid ss) ≡ said ss
unfolding queue answer_in_events said
answer_in_events-queue cid [] = refl
answer_in_events-queue cid (s ∷ ss) =
    answer_in_events-append (queued cid s) (queue cid ss)
    ∙ (ap (λ t. t ++ answer_in_events (queue cid ss)) (answer_in_events-queued cid s)
        ∙ (ap (◌++◌ (said (s ∷ []))) (answer_in_events-queue cid ss) ∙ sym (said-cons s ss)))

answer_in_events-answer_events :
    (cid : Text) (ts : List Text) → answer_in_events (answer_events cid ts) ≡ joined ts
unfolding answer_in_events answer_events answer_event event part add_part get_field joined dict
answer_in_events-answer_events cid [] = refl
answer_in_events-answer_events cid (t ∷ ts) =
    ap (λ u. u ++ answer_in_events (answer_events cid ts)) (append-nil t)
    ∙ ap (◌++◌ t) (answer_in_events-answer_events cid ts)

module _ (str_of : Json → Text) (cid : Text) (p : ParsedPayload) where
  unanswered-iterations :
      (v : Json) (items : List Fields)
      → answer_in_events (map (iteration_event str_of cid p v) items) ≡ []
  unfolding answer_in_events part iteration_event event
  unanswered-iterations v [] = refl
  unanswered-iterations v (fs ∷ items) = unanswered-iterations v items

  unanswered-routing_events :
      (v : Json) (items : List Fields) → answer_in_events (routing_events str_of cid p v items) ≡ []
  unfolding routing_events single_event answer_in_events part event
  unanswered-routing_events v [] = refl
  unanswered-routing_events v (fs ∷ items) = unanswered-iterations v (fs ∷ items)

  unanswered-agent :
      (v : Json) (items : List Fields)
      → answer_in_events (routing_events str_of cid p v items ++ agent_event_of str_of cid p v ∷ [])
        ≡ []
  unfolding agent_event_of answer_in_events part event
  unanswered-agent v items =
      answer_in_events-append (routing_events str_of cid p v items)
        (agent_event_of str_of cid p v ∷ [])
      ∙ (append-nil (answer_in_events (routing_events str_of cid p v items))
          ∙ unanswered-routing_events v items)

  unanswered-emit : answer_in_events (emit_routing_and_agent str_of cid p) ≡ []
  unfolding emit_routing_and_agent
  unanswered-emit =
      unanswered-agent
        (object (dict_or_empty (get_field "circuit_breakers" (fields_of p.metadata))))
        (iterations_of (get_field "plan_iterations" (fields_of p.metadata)))

  unanswered-plan :
      (b : Bool) → answer_in_events (if b then [] else emit_routing_and_agent str_of cid p) ≡ []
  unfolding answer_in_events
  unanswered-plan true = refl
  unanswered-plan false = unanswered-emit

  answer-chunks :
      (size : ℤ) (b : Bool)
      → answer_in_events (if b then [] else answer_events cid (chunk_text size p.answer))
        ≡ (if b then [] else p.answer)
  unfolding answer_in_events
  answer-chunks size true = refl
  answer-chunks size false =
      answer_in_events-answer_events cid (chunk_text size p.answer)
      ∙ joined-chunk_text size p.answer

  answer_in_events-finish :
      (size latency : ℤ) (ss : List Signal)
      → answer_in_events (finish str_of size cid latency ss p)
        ≡ (if streamed_answer ss then [] else p.answer)
  unfolding finish answer_in_events part event
  answer_in_events-finish size latency ss =
      let plan = if streamed_routing ss then [] else emit_routing_and_agent str_of cid p in
      let chunks =
        if streamed_answer ss then [] else answer_events cid (chunk_text size p.answer) in
      let last = event done cid (done_payload cid latency p) ∷ [] in
      answer_in_events-append plan (chunks ++ last)
      ∙ (ap (λ t. t ++ answer_in_events (chunks ++ last)) (unanswered-plan (streamed_routing ss))
          ∙ (answer_in_events-append chunks last
              ∙ (append-nil (answer_in_events chunks) ∙ answer-chunks size (streamed_answer ss))))

-- What the callbacks said, or the answer of the payload when they said nothing.
unfoldable pub expected_answer : List Signal → Text → Text
unfolding streamed_answer said
expected_answer ss text = if streamed_answer ss then said ss else text

said-or :
    (ss : List Signal) (text : Text)
    → said ss ++ (if streamed_answer ss then [] else text) ≡ expected_answer ss text
unfolding said streamed_answer expected_answer
said-or [] text = refl
said-or (token [] ∷ ss) text = said-or ss text
said-or (token (c ∷ s) ∷ ss) text = append-nil ((c ∷ s) ++ said ss)
said-or (routing_event fs ∷ ss) text = said-or ss text
said-or (agent_event fs ∷ ss) text = said-or ss text
said-or (other_event fs ∷ ss) text = said-or ss text

module _ (str_of : Json → Text) (size : ℤ) (cid : Text) (latency : ℤ) where
  answer-finish :
      (ss : List Signal) (p : ParsedPayload)
      → joined
          (collect (queue cid ss ++ finish str_of size cid latency ss p) nothing_yet).answer_parts
        ≡ expected_answer ss p.answer
  unfolding joined
  answer-finish ss p =
      let tail = finish str_of size cid latency ss p in
      collect-joined (queue cid ss ++ tail) nothing_yet
      ∙ (answer_in_events-append (queue cid ss) tail
          ∙ (ap (λ t. t ++ answer_in_events tail) (answer_in_events-queue cid ss)
              ∙ (ap (◌++◌ (said ss)) (answer_in_events-finish str_of cid p size latency ss)
                  ∙ said-or ss p.answer)))

  -- The answer that run joins from the events of a live stream of a handle_query that returns is the
  -- tokens that were streamed, joined in their order, if one was not empty, and otherwise the answer of
  -- the payload, whatever the size of a chunk is set to.
  pub collect-answer :
      (ss : List Signal) (payload : Payload)
      → joined
          (collect
            (stream_live str_of size cid latency ss (returned payload)).events
            nothing_yet).answer_parts
        ≡ expected_answer ss (payload_fields str_of payload).answer
  unfolding stream_live
  collect-answer ss payload = answer-finish ss (payload_fields str_of payload)
