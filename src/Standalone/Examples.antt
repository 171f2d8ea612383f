-- ===== src/Standalone/Examples.antt =====
-- The theorem about nameko/standalone/rpc.py at a concrete client.
use nameko.Prelude.{String, ◌≡◌, true, false, some, List, [], ◌∷◌, string_eq, refl}
use nameko.Prelude.Dict.{get}
use nameko.Prelude.Set.{contains}
use nameko.Action.{returned}
use nameko.Standalone.{Drained, got, cut_off, Poller, get_message, wait}
use nameko.Standalone.Polling.{wait-returns}

abbrev client : Poller String
client = record {
  stopped = false;
  connected = true;
  replies = ("x", "old") ∷ [];
  reply_events = "c" ∷ "x" ∷ [];
  sent = [];
  failed = [];
}

abbrev drained : List (Drained String)
drained = got "x" "new" ∷ cut_off ∷ got "c" "mine" ∷ got "y" "later" ∷ []

wait-returns_example :
    (wait "c" drained client ≡ some (returned "mine"))
    × ((q : Poller String) × (get_message "c" drained client
          ≡ some (returned q, got "y" "later" ∷ []))
        × (get "x" q.replies ≡ some "new"))
unfolding get contains
wait-returns_example =
    wait-returns "c" "x" "mine" (got "x" "new" ∷ cut_off ∷ []) (got "y" "later" ∷ []) client refl
      refl refl refl refl refl
