-- ===== src/Tests/Messages.antt =====
-- The contexts of events, and end points.
use dklibrary.Common.{false, ℕ, ◌<◌, ◌≡◌, ◌≢◌, ◌↔◌, refl, arith, [], ◌∷◌, returns, true}
use dklibrary.Common.Integer.{pos}
use dklibrary.Event.{no_events}
use dklibrary.EventListener.{AsyncListener, next_context}
use dklibrary.EventListener.Contexts.{later, next_context-turns}
use dklibrary.Session.EndPoints.{EndPoint, same, to_string}
use dklibrary.Session.EndPoints.Comparing.{end_point_lem}
use dklibrary.Tests.Data.{zeroed}

abbrev three_contexts : AsyncListener
three_contexts = record {
  contexts = no_events ∷ no_events ∷ no_events ∷ [];
  stop = false;
  dispatch_interval = pos 10;
  pos = 7;
}

next_context-turns_example :
    (i i' : ℕ) × (next_context (later 1 three_contexts) ≡ returns i (later 2 three_contexts))
    × (next_context (later 3 three_contexts) ≡ returns i' (later 4 three_contexts))
    × (i < 3)
    × (i' < 3)
    × (i ≢ i')
next_context-turns_example =
    next_context-turns three_contexts 1 3 2 refl (omega arith) (omega arith) (omega arith)

-- "::1" and 80, "::" and 180
abbrev loopback : EndPoint
loopback = record { ip = 58 ∷ 58 ∷ 49 ∷ []; port = 80 }

abbrev anywhere : EndPoint
anywhere = record { ip = 58 ∷ 58 ∷ []; port = 180 }

end_point_lem_example :
    ((same loopback anywhere ≡ true) ↔ (loopback ≡ anywhere))
    × ((to_string loopback ≡ to_string anywhere) ↔ (loopback ≡ anywhere))
end_point_lem_example = end_point_lem loopback anywhere (omega arith) (omega arith)
