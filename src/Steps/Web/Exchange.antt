-- ===== src/Steps/Web/Exchange.antt =====
-- An HTTP script of a "send" and a "recv", as src/httpstep.C runs it: a request goes out, and the answer is
-- judged by its code.
use ptf.Prelude.{
  ℕ, zero, suc, ◌<◌, ◌≡◌, ◌≢◌, ◌⊎◌, inl, inr, Bool, true, false, ◌||◌, Option, some, [], ◌∷◌, ◌++◌,
  Bool-cases, arith, if◌then◌else◌,
}
use ptf.Prelude.Int.{ℤ, pos, ◌==ℤ◌}
use ptf.Event.{tx}
use ptf.Http.Text.{Text}
use ptf.Text.{codes}
use ptf.Transaction.{StepResult, errend, succ, Usage, returned, on_event}
use ptf.Transaction.Queues.{list_queue}
use ptf.Pool.Task.{find}
use ptf.Step.{send, recv, handle}
use ptf.Script.{links_of}
use ptf.Script.Exchange.{answered_after, starting, done, on_event-exchange}
use ptf.Steps.Web.{WebStep, Client, World, connection_for, WebEvent, recv_step, web_handlers}
use ptf.Steps.Web.Sent.{Page, header_of, WellFormed, after_send, send_step-page}

-- The answers that are taken
abbrev pub accepted : ℤ → Bool
accepted code = code ==ℤ pos 200 || code ==ℤ pos 302 || code ==ℤ pos 404

abbrev pub verdict : ℤ → StepResult
verdict code = if accepted code then succ else errend

verdict-cases : (code : ℤ) → (verdict code ≡ succ) ⊎ (verdict code ≡ errend)
verdict-cases code = elim (Bool-cases (accepted code)) [ inl e ↦ inl (rw e) | inr e ↦ inr (rw e) ]

zero_refused : (code : ℤ) → (code ==ℤ pos 0) ≡ true → accepted code ≡ false
zero_refused code e = ground (arith, e)

recv_step-verdict :
    (code : ℤ) (w : World)
    → recv_step (some (record { direction = tx; response_code = code })) (some w)
      ≡ (verdict code, some w)
unfolding recv_step
recv_step-verdict code w = elim (Bool-cases (code ==ℤ pos 0)) [
  | inl z ↦ rw (z, zero_refused code z)
  | inr nz ↦ elim (Bool-cases (accepted code)) [ inl e ↦ rw (nz, e) | inr e ↦ rw (nz, e) ]
]

module _ (client : Client) (thread : ℕ) where
  -- The `switch` of `run` on a step that sends and one that receives
  abbrev pub run_pair :
      WebStep → WebStep → ℕ → Option WebEvent → Option World → StepResult × Option World
  run_pair out back zero e w = handle (web_handlers client thread out) send e w
  run_pair out back (suc i) e w = handle (web_handlers client thread back) recv e w

  -- On a thread with a connection, the transaction of a script of an HTTP "send" with a well-formed
  -- header and an HTTP "recv" makes exactly one request, with the method, the header fields and the
  -- body of the script and the URL with a space behind it, over that connection; when, after any
  -- number of idle rounds, the response comes, it returns success on the codes 200, 302 and 404 and
  -- failure on others, and has left the script.
  pub on_event-web :
      (cap rounds c : ℕ) (out back : WebStep) (p : Page) (u : Usage) (w : World) (code : ℤ)
      {peer : Option Text × ℤ}
      → 0 < cap
      → find thread w.cps_map ≡ some c
      → c ≢ 0
      → connection_for client (codes "http://" ++ w.host) (w.connections c) ≡ some peer
      → out.header ≡ header_of p
      → WellFormed p
      → on_event
          (list_queue cap)
          (links_of 2)
          (run_pair out back)
          ([] ∷ answered_after rounds (record { direction = tx; response_code = code }))
          (starting u)
          (some w)
        ≡ returned (verdict code) (done u) (some (after_send c peer p out.body w))
  on_event-web cap rounds c out back p u w code {peer} room found ne connected header v =
      on_event-exchange cap (run_pair out back) rounds _ u (some w)
        (some (after_send c peer p out.body w)) _ (verdict code) room
        (send_step-page client thread c out w p found ne connected header v)
        (recv_step-verdict code (after_send c peer p out.body w)) (verdict-cases code)
