-- ===== src/Gateway/Examples.antt =====
-- A chat with a plan and two tokens, and one that is waited for.
use repo_agent.Prelude.{◌≡◌, refl, true, not, ◌||◌, List, [], ◌∷◌}
use repo_agent.Prelude.Int.{pos}
use repo_agent.Prelude.Json.{
  Json, bool, str, object, Fields, end, get_field, truthy, has_field, dict,
}
use repo_agent.Prelude.Text.{codes}
use repo_agent.Prelude.Words.{Text}
use repo_agent.Gateway.Events.{chunk_text, slices, or_empty_chunk}
use repo_agent.Gateway.Events.Chunks.{joined, joined-chunk_text}
use repo_agent.Gateway.Payload.{Payload, mapping, dict_or_empty}
use repo_agent.Gateway.Stream.{
  Signal, token, routing_event, agent_event, returned, propagated, Streamed, stream, stream_live,
  stream_waiting,
}
use repo_agent.Gateway.Stream.Order.{ends_once, no_done, stream-ends_once}
use repo_agent.Gateway.Stream.Answers.{expected_answer, collect-answer}
use repo_agent.Gateway.Stream.Same.{stream_live-waiting}
use repo_agent.Gateway.Run.{collect, nothing_yet}

abbrev text_of : Json → Text
text_of (str t) = t
text_of v = codes "?"

abbrev reply : Fields
reply = dict (
    ("answer", str (codes "hello")) ∷ ("metadata", object (dict (("cached", bool true) ∷ []))) ∷ [])

abbrev signals : List Signal
signals =
    routing_event end ∷ token (codes "he") ∷ agent_event end ∷ token [] ∷ token (codes "llo") ∷ []

no_get : Payload → Text
no_get p = codes "no get"

chunks_of_two : chunk_text (pos 2) (codes "hello") ≡ codes "he" ∷ codes "ll" ∷ codes "o" ∷ []
unfolding chunk_text slices or_empty_chunk
chunks_of_two = refl

joined-chunk_text_example : joined (chunk_text (pos 2) (codes "hello")) ≡ codes "hello"
joined-chunk_text_example = joined-chunk_text (pos 2) (codes "hello")

abbrev broken_off : Streamed
broken_off = stream text_of no_get (pos 2) (codes "c") (pos 7) true true signals propagated

stream-ends_once_example :
    (ends_once broken_off.events ≡ not broken_off.raised)
    × ((not broken_off.raised || no_done broken_off.events) ≡ true)
stream-ends_once_example =
    stream-ends_once text_of no_get (pos 2) (codes "c") (pos 7) true true signals propagated

collect-answer_example :
    joined
      (collect
        (stream_live text_of (pos 2) (codes "c") (pos 7) signals (returned (mapping reply))).events
        nothing_yet).answer_parts
    ≡ codes "hello"
unfolding expected_answer
collect-answer_example = collect-answer text_of (pos 2) (codes "c") (pos 7) signals (mapping reply)

stream_live-waiting_example :
    stream_live text_of (pos 2) (codes "c") (pos 7) [] (returned (mapping reply))
    ≡ stream_waiting text_of no_get (pos 2) (codes "c") (pos 7) (returned (mapping reply))
unfolding dict get_field dict_or_empty truthy has_field
stream_live-waiting_example =
    stream_live-waiting text_of (λ t. refl) (pos 2) (codes "c") (pos 7) no_get reply refl
