-- ===== src/Steps/Tcp/Dialogue.antt =====
-- A TCP script of any number of messages, each with its answer, as src/tcpstep.C runs it.
pub mod Judged
use ptf.Prelude.{
  Bool, ℕ, ◌+◌, ◌≡◌, ◌≢◌, not, Option, some, List, [], ◌∷◌, ◌++◌, map, length, ◌==◌, if◌then◌else◌,
}
use ptf.Prelude.Int.{ℤ, pos, ◌==ℤ◌}
use ptf.Event.{EventType}
use ptf.Transaction.{StepResult, succ, errend}
use ptf.Socket.{TcpEvent, c_string}
use ptf.Timeout.Chain.{Linked}
use ptf.Step.{handle}
use ptf.Script.Exchange.{answered_after}
use ptf.Steps.Tcp.{TcpStep, World, tcp_handlers}
use ptf.Steps.Tcp.RoundTrip.{TcpSpec}
use ptf.Steps.Tcp.Exchange.{sender, receiver, sent}

-- A message and the answer to it, with the idle rounds before it comes, and the address that `new` gives the node
-- for its time.
pub record Talk : Type 0 where
  pub out : TcpSpec
  pub back : TcpSpec
  pub delay : ℕ
  pub heard : ℤ
  pub fresh : ℕ

-- The response, `heard` bytes long, and whether that is the length that is expected
abbrev pub answer : Talk → TcpEvent
answer x = record { kind = EventType.tcp_data; length = some x.heard }

abbrev pub is_right : Talk → Bool
is_right x = x.heard ==ℤ pos (length (c_string x.back.content))

-- How the talks go: the result, and those that take place, up to the first wrong answer.
abbrev pub course : List Talk → StepResult × List Talk
course [] = (succ, [])
course (x ∷ xs) =
    let (r, rest) = course xs in if is_right x then (r, x ∷ rest) else (errend, x ∷ [])

abbrev pub rounds_of : List Talk → List (List TcpEvent)
rounds_of [] = []
rounds_of (x ∷ xs) = [] ∷ (answered_after x.delay (answer x) ++ rounds_of xs)

-- Two steps for each
abbrev pub steps_count : ℕ → List Talk → ℕ
steps_count i [] = i
steps_count i (x ∷ xs) = steps_count (i + 1 + 1) xs

-- From the step `i` on, the steps and the nodes are those of the talks.
abbrev pub Scripted : (ℕ → TcpStep) → (ℕ → ℕ) → ℕ → List Talk → Type 0
Scripted steps fresh i [] = Unit
Scripted steps fresh i (x ∷ xs) =
    (steps i ≡ sender x.out)
    × (steps (i + 1) ≡ receiver x.back)
    × (fresh (i + 1) ≡ x.fresh)
    × (x.fresh ≢ 0)
    × Scripted steps fresh (i + 1 + 1) xs

-- The addresses of the nodes, the newest in front
abbrev pub nodes_after : List Talk → List ℕ → List ℕ
nodes_after [] ys = ys
nodes_after (x ∷ xs) ys = nodes_after xs (x.fresh ∷ ys)

module _ (thread now rand : ℕ) (steps : ℕ → TcpStep) (fresh : ℕ → ℕ) where
  -- The `switch` of `run` on the step `i`; all but the first have a parent.
  abbrev pub run_steps : ℕ → Option TcpEvent → Option World → StepResult × Option World
  run_steps i e w =
      handle (tcp_handlers thread now rand (fresh i) (not (i == 0)) (steps i)) (steps i).base.kind e
        w

  -- What the talks leave behind: their messages are out, in order, and their nodes are still queued.
  abbrev pub Talked : ℕ → List Talk → List ℕ → World → World → Type 0
  Talked c xs ys w w' =
      (w'.sent ≡ w.sent ++ map (λ x. (c, c_string x.out.content)) xs)
      × Linked w'.timeouts.memory 0 w'.timeouts.node (nodes_after xs ys)
