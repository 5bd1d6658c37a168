-- ===== src/MessageQueue/Tests.antt =====
-- A queue of two messages, the first of which is no JSON.
use mathlib.Core.List.{append-nil}
use simple_claude_code_githu.Prelude.{◌≡◌, refl, sym, List, [], ◌∷◌, ◌++◌, arith}
use simple_claude_code_githu.Prelude.Lines.{drop}
use simple_claude_code_githu.Json.{Json, num}
use simple_claude_code_githu.Redis.{Stored, json, plain}
use simple_claude_code_githu.Redis.Memory.{Memory, memory, empty}
use simple_claude_code_githu.Redis.Io.{World, Io, ok, pure, command}
use simple_claude_code_githu.Redis.Commands.{rpush}
use simple_claude_code_githu.MessageQueue.{subscribe}
use simple_claude_code_githu.MessageQueue.Receiving.{OnlyPushes, subscribe-takes}

abbrev two_messages : Memory
two_messages = record empty { lists = λ k. plain "no JSON" ∷ json (num 7) ∷ [] }

abbrev fault_free : World memory
fault_free = record { store = two_messages; time = 0; faults = [] }

-- A callback that puts its message back, as the one of the retrospector does.
abbrev put_back : Json → Io memory (Unit {0})
put_back j = rpush "requests" (json j)

abbrev sleep : Io memory (Unit {0})
sleep = pure tt

sleep_ok : (w : World memory) → (sleep w).0 ≡ ok tt
unfolding pure
sleep_ok w = refl

sleep_pushes : OnlyPushes {r = memory} "requests" put_back sleep sleep
unfolding pure
sleep_pushes w f = (f, ([], sym (append-nil (w.store.lists "requests"))))

put_back_pushes : (j : Json) → OnlyPushes {r = memory} "requests" put_back sleep (put_back j)
unfolding rpush command
put_back_pushes j w f = rw f (refl, (json j ∷ [], refl))

subscribe-takes_example :
    (pushed : List Stored) × ((subscribe "requests" put_back sleep 2 fault_free).1.store.lists
        "requests"
      ≡ drop 2 (two_messages.lists "requests") ++ pushed)
subscribe-takes_example =
    subscribe-takes "requests" put_back sleep 2 fault_free sleep_ok sleep_pushes put_back_pushes
      refl (omega arith)
