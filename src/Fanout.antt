-- ===== src/Fanout.antt =====
-- packages/core/src/fanout.ts: subscription matching, and one message for each matching endpoint.
pub mod Matching
use Prim.Native.Nat.{ℕ}
use text.Mathlib.Text.{starts_with}
use anyhook.Base.{
  Bool, true, false, ◌||◌, ◌&&◌, not, none, String, List, [], ◌∷◌, filter, any, ◌==◌, if◌then◌else◌,
}
use anyhook.Base.Exec.{Exec, pure, ◌>>=◌}
use anyhook.Base.Text.{ends_with, drop_last}
use anyhook.Id.{new_id}
use anyhook.Types.{Endpoint, SendEvent, Message, pending}

-- One pattern of `eventTypes`. The prefix keeps its dot: "payment.".
unfoldable pub pattern_matches : String → String → Bool
unfolding ends_with drop_last
pattern_matches event_type pattern_text =
    if (pattern_text == "*") || (pattern_text == event_type)
    then true
    else if ends_with pattern_text ".*"
    then starts_with event_type (drop_last pattern_text)
    else false

unfoldable pub subscribes : Endpoint → String → Bool
subscribes endpoint event_type = any (pattern_matches event_type) endpoint.event_types

module _ {W : Type 0} (rng : Exec W ℕ) where
  unfoldable pub fresh_message : SendEvent → String → ℕ → Endpoint → Exec W Message
  fresh_message event event_id now e = do
    message_id ← new_id rng "msg"
    pure (record {
      message_id = message_id;
      tenant = event.tenant;
      endpoint_id = e.endpoint_id;
      event_id = event_id;
      event_type = event.type;
      payload = event.payload;
      attempt_no = 0;
      status = pending;
      next_attempt_at = none;
      created_at = now;
    })

  -- endpoints.map(…): the ids are drawn in order
  unfoldable pub fresh_messages : SendEvent → String → ℕ → List Endpoint → Exec W (List Message)
  unfolding fresh_message
  fresh_messages event event_id now [] = pure []
  fresh_messages event event_id now (e ∷ es) = do
    m ← fresh_message event event_id now e
    ms ← fresh_messages event event_id now es
    pure (m ∷ ms)

  unfoldable pub fanout : SendEvent → String → List Endpoint → ℕ → Exec W (List Message)
  unfolding fresh_messages
  fanout event event_id endpoints now =
      fresh_messages event event_id now
        (filter (λ e. not e.disabled && subscribes e event.type) endpoints)
