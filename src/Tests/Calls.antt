-- ===== src/Tests/Calls.antt =====
-- Calls of `GetRemoteAddr` at concrete inputs.
use mathlib.Core.Option.{some-injective}
use route_server.Prelude.{ℕ, zero, suc, none, some, List, [], ◌∷◌, ◌≡◌, refl, subst, get_elem?}
use route_server.Proxy.Relay.{remote_addr}
use route_server.Proxy.Calls.{
  State, waiting, holding, returned, in_buf, idle, asked, wrote, replying, read_into, Step, Reach,
  start,
}
use route_server.Proxy.Calls.Single.{Quiet, IsRest}
use route_server.Proxy.Calls.Stages.{Right}
use route_server.Proxy.Calls.Turns.{Reach-Right, Reach-mixed}

-- The client answers with two bytes and the port, and sends nothing by itself.
abbrev Ask : List ℕ → List ℕ → Type 0
Ask port bytes = bytes ≡ 49 ∷ 58 ∷ port

abbrev Silent : List ℕ → Type 0
Silent bytes = ⊥

abbrev port_a : List ℕ
port_a = 50 ∷ []

abbrev answer_a : List ℕ
answer_a = 49 ∷ 58 ∷ 50 ∷ []

Reach-mixed_example :
    (s : State) × Reach Ask Silent (λ _. Unit) (start (port_a ∷ (51 ∷ []) ∷ [])) s
    × (get_elem? s.calls 1 ≡ some (returned (51 ∷ []) (remote_addr answer_a)))
Reach-mixed_example = Reach-mixed Ask Silent port_a (51 ∷ []) answer_a refl

-- The states of a single call.
abbrev begun : State
begun = start (port_a ∷ [])

abbrev sent : State
sent = record begun { inbox = some port_a; calls = waiting port_a ∷ [] }

abbrev accepted : State
accepted = record sent { inbox = none; loop = asked port_a }

abbrev asked_a : State
asked_a = record accepted { loop = wrote port_a }

abbrev replied : State
replied = record asked_a { buf = read_into answer_a asked_a.buf; loop = replying (in_buf 3) }

abbrev offered : State
offered = record replied { outbox = some (in_buf 3); loop = idle }

abbrev taken : State
taken = record offered { outbox = none; calls = holding port_a (in_buf 3) ∷ [] }

abbrev ended : State
ended = record taken { calls = returned port_a (remote_addr (49 ∷ 58 ∷ 50 ∷ [])) ∷ [] }

begun-Quiet : Quiet begun
begun-Quiet zero c h = subst IsRest (some-injective _ _ h) tt
begun-Quiet (suc i) c h = absurd (cc)

single_call : Reach Ask Silent Quiet begun ended
single_call =
    Reach.next
      (Reach.next
        (Reach.next
          (Reach.next
            (Reach.next
              (Reach.next (Reach.next Reach.here (Step.send begun 0 port_a begun-Quiet refl refl))
                (Step.accept sent port_a refl refl))
              (Step.write accepted port_a refl))
            (Step.read asked_a port_a answer_a refl refl))
          (Step.put replied (in_buf 3) refl refl))
        (Step.receive offered 0 port_a (in_buf 3) refl refl))
      (Step.convert taken 0 port_a (in_buf 3) refl)

Reach-Right_example : Right Ask Silent port_a (remote_addr answer_a)
Reach-Right_example =
    Reach-Right Ask Silent (port_a ∷ []) ended 0 port_a (remote_addr answer_a) single_call refl
