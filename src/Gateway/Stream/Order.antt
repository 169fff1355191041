-- ===== src/Gateway/Stream/Order.antt =====
-- The order of the events of a chat.
use repo_agent.Prelude.{
  ◌≡◌, refl, sym, ap, ◌∙◌, Bool, true, false, not, ◌&&◌, ◌||◌, none, List, [], ◌∷◌, ◌++◌, map,
  append-nil, arith, if◌then◌else◌,
}
use repo_agent.Prelude.Int.{ℤ}
use repo_agent.Prelude.Json.{Json, object, Fields, get_field}
use repo_agent.Prelude.Words.{Text}
use repo_agent.Gateway.Events.{EventKind, done, ChatEvent, chunk_text}
use repo_agent.Gateway.Payload.{Payload, ParsedPayload, payload_fields, done_payload, dict_or_empty}
use repo_agent.Gateway.Stream.{
  Signal, token, routing_event, agent_event, other_event, Ending, returned, propagated, failed,
  answer_event, queued, queue, streamed_answer, streamed_routing, answer_events, finish,
  stream_live, stream_waiting, accepted, stream, degraded_payload,
}
use repo_agent.Gateway.Stream.Waiting.{waited, unread, degraded_answer}
use repo_agent.Gateway.Stream.Routing.{
  event, emit_routing_and_agent, routing_events, iteration_event, single_event, agent_event_of,
  iterations_of, fields_of,
}

unfoldable pub is_done : EventKind → Bool
is_done done = true
is_done k = false

is_empty {ℓ} : {A : Type ℓ} → List A → Bool
is_empty [] = true
is_empty (x ∷ xs) = false

-- There is one `done`, and it is the last event.
unfoldable pub ends_once : List ChatEvent → Bool
unfolding is_done is_empty
ends_once [] = false
ends_once (e ∷ es) = if is_done e.type then is_empty es else ends_once es

-- No event is `done`.
unfoldable pub no_done : List ChatEvent → Bool
unfolding is_done
no_done [] = true
no_done (e ∷ es) = not (is_done e.type) && no_done es

no_done-append : (xs ys : List ChatEvent) → no_done (xs ++ ys) ≡ (no_done xs && no_done ys)
unfolding no_done
no_done-append [] ys = refl
no_done-append (x ∷ xs) ys = ground (arith, no_done-append xs ys)

ends_once-append :
    (xs ys : List ChatEvent) → no_done xs ≡ true → ends_once (xs ++ ys) ≡ ends_once ys
unfolding no_done ends_once is_done
ends_once-append [] ys h = refl
ends_once-append (x ∷ xs) ys h = ground (arith, h, ends_once-append xs ys)

no_done-ends_once : (xs : List ChatEvent) → no_done xs ≡ true → ends_once xs ≡ false
unfolding ends_once
no_done-ends_once xs h = ap ends_once (sym (append-nil xs)) ∙ ends_once-append xs [] h

no_done-both :
    (xs ys : List ChatEvent) → no_done xs ≡ true → no_done ys ≡ true → no_done (xs ++ ys) ≡ true
no_done-both xs ys h k = ground (arith, no_done-append xs ys, h, k)

no_done-if :
    (b : Bool) (xs : List ChatEvent) → no_done xs ≡ true → no_done (if b then [] else xs) ≡ true
unfolding no_done
no_done-if true xs h = refl
no_done-if false xs h = h

no_done-queued : (cid : Text) (s : Signal) → no_done (queued cid s) ≡ true
unfolding no_done queued answer_event event is_done
no_done-queued cid (token []) = refl
no_done-queued cid (token (c ∷ s)) = refl
no_done-queued cid (routing_event fs) = refl
no_done-queued cid (agent_event fs) = refl
no_done-queued cid (other_event fs) = refl

no_done-queue : (cid : Text) (ss : List Signal) → no_done (queue cid ss) ≡ true
unfolding queue no_done
no_done-queue cid [] = refl
no_done-queue cid (s ∷ ss) =
    no_done-both (queued cid s) (queue cid ss) (no_done-queued cid s) (no_done-queue cid ss)

no_done-answer_events : (cid : Text) (ts : List Text) → no_done (answer_events cid ts) ≡ true
unfolding no_done answer_events answer_event event is_done
no_done-answer_events cid [] = refl
no_done-answer_events cid (t ∷ ts) = no_done-answer_events cid ts

module _ (str_of : Json → Text) (cid : Text) (p : ParsedPayload) where
  no_done-iterations :
      (v : Json) (items : List Fields) → no_done (map (iteration_event str_of cid p v) items) ≡ true
  unfolding no_done iteration_event event is_done
  no_done-iterations v [] = refl
  no_done-iterations v (fs ∷ items) = no_done-iterations v items

  no_done-routing_events :
      (v : Json) (items : List Fields) → no_done (routing_events str_of cid p v items) ≡ true
  unfolding routing_events single_event no_done event is_done
  no_done-routing_events v [] = refl
  no_done-routing_events v (fs ∷ items) = no_done-iterations v (fs ∷ items)

  no_done-agent :
      (v : Json) (items : List Fields)
      → no_done (routing_events str_of cid p v items ++ agent_event_of str_of cid p v ∷ []) ≡ true
  unfolding agent_event_of no_done event is_done
  no_done-agent v items =
      no_done-both (routing_events str_of cid p v items) (agent_event_of str_of cid p v ∷ [])
        (no_done-routing_events v items) refl

  no_done-emit : no_done (emit_routing_and_agent str_of cid p) ≡ true
  unfolding emit_routing_and_agent
  no_done-emit =
      no_done-agent (object (dict_or_empty (get_field "circuit_breakers" (fields_of p.metadata))))
        (iterations_of (get_field "plan_iterations" (fields_of p.metadata)))

  ends_once-finish :
      (size latency : ℤ) (ss : List Signal) → ends_once (finish str_of size cid latency ss p) ≡ true
  unfolding finish ends_once is_done is_empty event
  ends_once-finish size latency ss =
      let plan = if streamed_routing ss then [] else emit_routing_and_agent str_of cid p in
      let chunks =
        if streamed_answer ss then [] else answer_events cid (chunk_text size p.answer) in
      let last = event done cid (done_payload cid latency p) ∷ [] in
      ends_once-append plan (chunks ++ last)
        (no_done-if (streamed_routing ss) (emit_routing_and_agent str_of cid p) no_done-emit)
      ∙ ends_once-append chunks last (
          no_done-if (streamed_answer ss) (answer_events cid (chunk_text size p.answer))
            (no_done-answer_events cid (chunk_text size p.answer)))

module _ (str_of : Json → Text) (no_get : Payload → Text) (size : ℤ) (cid : Text)
    (latency : ℤ) where
  ends_once-live :
      (ss : List Signal) (e : Ending)
      → let streamed = stream_live str_of size cid latency ss e in
        ends_once streamed.events ≡ not streamed.raised
  unfolding stream_live
  ends_once-live ss (returned p) =
      ends_once-append (queue cid ss) (finish str_of size cid latency ss (payload_fields str_of p))
        (no_done-queue cid ss)
      ∙ ends_once-finish str_of cid (payload_fields str_of p) size latency ss
  ends_once-live ss propagated = no_done-ends_once (queue cid ss) (no_done-queue cid ss)
  ends_once-live ss (failed exc) =
      ends_once-append (queue cid ss)
        (finish str_of size cid latency ss (payload_fields str_of (degraded_payload exc)))
        (no_done-queue cid ss)
      ∙ ends_once-finish str_of cid (payload_fields str_of (degraded_payload exc)) size latency ss

  ends_once-waiting :
      (e : Ending)
      → let streamed = stream_waiting str_of no_get size cid latency e in
        ends_once streamed.events ≡ not streamed.raised
  unfolding stream_waiting ends_once
  ends_once-waiting (returned p) =
      ends_once-finish str_of cid (waited str_of no_get p) size latency []
  ends_once-waiting propagated = refl
  ends_once-waiting (failed exc) =
      ends_once-finish str_of cid (unread (degraded_answer exc) none true) size latency []

  quiet-live :
      (ss : List Signal) (e : Ending)
      → let streamed = stream_live str_of size cid latency ss e in
        (not streamed.raised || no_done streamed.events) ≡ true
  unfolding stream_live
  quiet-live ss (returned p) = refl
  quiet-live ss propagated = no_done-queue cid ss
  quiet-live ss (failed exc) = refl

  quiet-waiting :
      (e : Ending)
      → let streamed = stream_waiting str_of no_get size cid latency e in
        (not streamed.raised || no_done streamed.events) ≡ true
  unfolding stream_waiting no_done
  quiet-waiting (returned p) = refl
  quiet-waiting propagated = refl
  quiet-waiting (failed exc) = refl

  -- Whatever callbacks handle_query accepts and makes, and however it ends: when the stream does not
  -- end in an error that is passed on, its last event is `done` and no other event is; when it does,
  -- no event is `done`.
  pub stream-ends_once :
      (takes_token takes_event : Bool) (ss : List Signal) (e : Ending)
      → let streamed = stream str_of no_get size cid latency takes_token takes_event ss e in
        (ends_once streamed.events ≡ not streamed.raised)
        × ((not streamed.raised || no_done streamed.events) ≡ true)
  unfolding stream
  stream-ends_once true te ss e =
      (ends_once-live (accepted true te ss) e, quiet-live (accepted true te ss) e)
  stream-ends_once false true ss e =
      (ends_once-live (accepted false true ss) e, quiet-live (accepted false true ss) e)
  stream-ends_once false false ss e = (ends_once-waiting e, quiet-waiting e)
