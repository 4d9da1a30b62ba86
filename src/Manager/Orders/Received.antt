-- ===== src/Manager/Orders/Received.antt =====
-- What every worker has received after the orders of src/manager.C.
use ptf.Prelude.{
  ℕ, zero, suc, ◌+◌, ◌-◌, ◌≤◌, ◌<◌, ◌≡◌, refl, ◌∙◌, ap, subst, ◌&&◌, if◌then◌else◌, ◌≢◌, Bool, true,
  some, List, [], ◌∷◌, ◌++◌, length, get_elem?, Bool-cases, inl, inr, arith, ◌==◌, eq_of_==,
  ne_of_==,
}
use ptf.Prelude.Int.{pos}
use ptf.Event.{Command, start}
use ptf.Pool.Notify.{ThreadData, order_thread}
use ptf.Pool.Notify.Delivery.{Waiting, order_thread-Waiting, order_thread-thread_id}
use ptf.Pool.Notify.Routing.{order-found, order-other}
use ptf.Queue
use ptf.Manager.Orders.{order_from, choose_workers, order_workers}

index-lt : {A : Type 0} (xs : List A) (i : ℕ) {x : A} → get_elem? xs i ≡ some x → i < length xs
index-lt [] i e = absurd cc
index-lt (y ∷ xs) zero e = omega arith
index-lt (y ∷ xs) (suc i) e = omega (arith, index-lt xs i e)

push-room :
    {A : Type 0} (cap : ℕ) (q : List A) (x : A)
    → length q < cap
    → Queue.push cap q x ≡ (true, q ++ (x ∷ []))
unfolding Queue.push
push-room cap q x h = ground (arith, h)

order_from-other :
    (written : ℕ → Bool) (cmd : Command) (i n j : ℕ) (threads : List ThreadData)
    → j < i
    → get_elem? (order_from written cmd i n threads) j ≡ get_elem? threads j
unfolding order_from
order_from-other written cmd i zero j threads h = refl
order_from-other written cmd i (suc n) j threads h =
    order_from-other written cmd (i + 1) n j _ (omega (arith, h))
    ∙ order-other threads cmd i j (written i) (λ e. omega (arith, h, e))

order_from-found :
    (written : ℕ → Bool) (cmd : Command) (i n j : ℕ) (threads : List ThreadData) {td : ThreadData}
    → i ≤ j
    → j < i + n
    → get_elem? threads j ≡ some td
    → get_elem? (order_from written cmd i n threads) j ≡ some (order_thread td cmd (written j)).1
unfolding order_from
order_from-found written cmd i zero j threads h h' e = absurd (omega (arith, h, h'))
order_from-found written cmd i (suc n) j threads {td} h h' e = elim (Bool-cases (i == j)) [
  | inl same ↦
      let at_i : i ≡ j = eq_of_== i j same in
      order_from-other written cmd (i + 1) n j _ (omega (arith, at_i))
      ∙ rw at_i (order-found threads cmd j (written j) e)
  | inr differs ↦
      let ne : i ≢ j = ne_of_== i j differs in
      order_from-found written cmd (i + 1) n j _ (omega (arith, h, ne)) (omega (arith, h'))
        (order-other threads cmd i j (written i) ne ∙ e)
]

-- A worker before and after an order: with `q` waiting before, the order stands behind it, and a byte
-- announces it if it was written.
pub record Ordered (td td' : ThreadData) (script : ℕ) (written : Bool) (q : List Command)
    : Type 0 where
  pub waits : Waiting td' (q ++ (start script (pos 10) (pos 50) (pos 0) ∷ []))
  pub same_thread : td'.thread_id ≡ td.thread_id
  pub sent : td'.pipe ≡ (if written then td.pipe + 1 else td.pipe)

order_thread-Ordered :
    (script : ℕ) (written : Bool) {td : ThreadData} {q : List Command}
    → Waiting td q
    → length q < td.queue.size - 1
    → Ordered td
        (order_thread td (start script (pos 10) (pos 50) (pos 0)) written).1
        script
        written
        q
order_thread-Ordered script written {td} {q} v room =
    let cmd = start script (pos 10) (pos 50) (pos 0) in
    let (done, v', sent) = order_thread-Waiting cmd written v in
    let pushed = push-room (td.queue.size - 1) q cmd room in
    record {
      waits = subst (λ p. Waiting (order_thread td cmd written).1 p.1) pushed v';
      same_thread = order_thread-thread_id td cmd written;
      sent =
          sent
          ∙ ap (λ d. if d && written then td.pipe + 1 else td.pipe) (done ∙ ap (λ p. p.0) pushed);
    }

-- Every worker that waits with room for one more command has the order behind its commands afterwards: the
-- script, ten transactions a round, fifty in all.
pub order_workers-Ordered :
    (written : ℕ → Bool) (script j : ℕ) (threads : List ThreadData) {td : ThreadData}
    {q : List Command}
    → get_elem? threads j ≡ some td
    → Waiting td q
    → length q < td.queue.size - 1
    → (threads' : List ThreadData) × (td' : ThreadData) × (order_workers written script
          choose_workers threads
        ≡ some threads')
      × (get_elem? threads' j ≡ some td')
      × Ordered td td' script (written j) q
unfolding order_workers
order_workers-Ordered written script j threads {td} {q} e v room =
    let cmd = start script (pos 10) (pos 50) (pos 0) in
    (
      order_from written cmd 0 (length threads) threads,
      (order_thread td cmd (written j)).1,
      refl,
      order_from-found written cmd 0 (length threads) j threads (omega arith)
          (omega (arith, index-lt threads j e)) e,
      order_thread-Ordered script (written j) v room,
    )
