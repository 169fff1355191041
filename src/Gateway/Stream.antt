-- ===== src/Gateway/Stream.antt =====
-- core/src/core/gateway.py, the method stream of ChatGatewayService and the collector run. What
-- handle_query does is an argument: the callbacks it makes, in order, and how it ends. Each callback
-- puts its event into a queue, from which stream yields them in the same order.
pub mod Routing
pub mod Waiting
pub mod Order
pub mod Answers
pub mod Same
use repo_agent.Prelude.{Bool, true, false, ◌||◌, none, List, [], ◌∷◌, ◌++◌, if◌then◌else◌}
use repo_agent.Prelude.Int.{ℤ}
use repo_agent.Prelude.Json.{Json, bool, str, object, Fields, has_field, put_field, dict}
use repo_agent.Prelude.Text.{codes}
use repo_agent.Prelude.Words.{Text}
use repo_agent.Gateway.Events.{routing, agent_result, answer, done, ChatEvent, chunk_text}
use repo_agent.Gateway.Stream.Routing.{event, emit_routing_and_agent}
use repo_agent.Gateway.Stream.Waiting.{unread, waited, degraded_answer}
use repo_agent.Gateway.Payload.{Payload, mapping, ParsedPayload, payload_fields, done_payload}

-- A call of on_token or of on_event; of the events, stream passes on two types.
pub data Signal : Type 0 where
  token : Text → Signal
  routing_event : Fields → Signal
  agent_event : Fields → Signal
  other_event : Fields → Signal

-- handle_query returns, raises an error that is passed on, or fails with a text.
pub data Ending : Type 0 where
  returned : Payload → Ending
  propagated : Ending
  failed : Text → Ending

unfoldable pub answer_event : Text → Text → ChatEvent
unfolding event dict
answer_event cid chunk = event answer cid (dict (("chunk", str chunk) ∷ []))

-- payload.setdefault("mode", "orchestrator")
unfoldable pub with_mode : Fields → Fields
unfolding has_field put_field
with_mode fs = if has_field "mode" fs then fs else put_field "mode" (str (codes "orchestrator")) fs

-- The events that on_token and on_event put into the queue.
unfoldable pub queued : Text → Signal → List ChatEvent
unfolding answer_event event with_mode
queued cid (token []) = []
queued cid (token (c ∷ s)) = answer_event cid (c ∷ s) ∷ []
queued cid (routing_event fs) = event routing cid (with_mode fs) ∷ []
queued cid (agent_event fs) = event agent_result cid fs ∷ []
queued cid (other_event fs) = []

unfoldable pub queue : Text → List Signal → List ChatEvent
unfolding queued
queue cid [] = []
queue cid (s ∷ ss) = queued cid s ++ queue cid ss

unfoldable pub streamed_answer : List Signal → Bool
streamed_answer [] = false
streamed_answer (token (c ∷ s) ∷ ss) = true
streamed_answer (s ∷ ss) = streamed_answer ss

unfoldable pub streamed_routing : List Signal → Bool
streamed_routing [] = false
streamed_routing (routing_event fs ∷ ss) = true
streamed_routing (s ∷ ss) = streamed_routing ss

unfoldable pub answer_events : Text → List Text → List ChatEvent
unfolding answer_event
answer_events cid [] = []
answer_events cid (t ∷ ts) = answer_event cid t ∷ answer_events cid ts

-- What stream yields, and whether an error is passed on at its end.
pub record Streamed : Type 0 where
  pub events : List ChatEvent
  pub raised : Bool

-- live_events: the tail that stream adds to the events of the queue.
unfoldable pub finish : (Json → Text) → ℤ → Text → ℤ → List Signal → ParsedPayload → List ChatEvent
unfolding streamed_routing streamed_answer answer_events emit_routing_and_agent event done_payload
    chunk_text
finish str_of chunk_chars cid latency signals p =
    (if streamed_routing signals then [] else emit_routing_and_agent str_of cid p)
    ++ ((if streamed_answer signals
          then []
          else answer_events cid (chunk_text chunk_chars p.answer))
        ++ event done cid (done_payload cid latency p) ∷ [])

unfoldable pub degraded_payload : Text → Payload
unfolding dict degraded_answer
degraded_payload exc = mapping (
    dict (
      ("answer", str (degraded_answer exc))
      ∷ ("metadata", object (dict (("degraded", bool true) ∷ [])))
      ∷ []))

module _ (str_of : Json → Text) (chunk_chars : ℤ) (cid : Text) (latency : ℤ) where
  -- The branch of stream for a handle_query that accepts a callback.
  unfoldable pub stream_live : List Signal → Ending → Streamed
  unfolding queue finish payload_fields degraded_payload
  stream_live signals (returned payload) = record {
    events =
        queue cid signals
        ++ finish str_of chunk_chars cid latency signals (payload_fields str_of payload);
    raised = false;
  }
  stream_live signals propagated = record { events = queue cid signals; raised = true }
  stream_live signals (failed exc) = record {
    events =
        queue cid signals
        ++ finish str_of chunk_chars cid latency signals
            (payload_fields str_of (degraded_payload exc));
    raised = false;
  }

-- A handle_query that accepts one callback only makes no call of the other.
unfoldable pub accepted : Bool → Bool → List Signal → List Signal
accepted takes_token takes_event [] = []
accepted takes_token takes_event (token t ∷ ss) =
    let rest = accepted takes_token takes_event ss in if takes_token then token t ∷ rest else rest
accepted takes_token takes_event (s ∷ ss) =
    let rest = accepted takes_token takes_event ss in if takes_event then s ∷ rest else rest

-- The branch of stream for a handle_query that accepts no callback: wait, then emit the events.
module _ (str_of : Json → Text) (no_get : Payload → Text) (chunk_chars : ℤ) (cid : Text)
    (latency : ℤ) where
  unfoldable pub stream_waiting : Ending → Streamed
  unfolding waited unread degraded_answer finish
  stream_waiting (returned payload) = record {
    events = finish str_of chunk_chars cid latency [] (waited str_of no_get payload);
    raised = false;
  }
  stream_waiting propagated = record { events = []; raised = true }
  stream_waiting (failed exc) = record {
    events = finish str_of chunk_chars cid latency [] (unread (degraded_answer exc) none true);
    raised = false;
  }

  unfoldable pub stream : Bool → Bool → List Signal → Ending → Streamed
  unfolding stream_live stream_waiting accepted
  stream takes_token takes_event signals ending =
      if takes_token || takes_event
      then stream_live str_of chunk_chars cid latency (accepted takes_token takes_event signals)
          ending
      else stream_waiting ending
