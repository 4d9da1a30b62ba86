-- ===== src/Script/Counters/Kept.antt =====
-- What the counters of src/script.C say, whatever the threads do.
use ptf.Prelude.{ℕ, zero, suc, ◌+◌, ◌%◌, ◌^◌, ◌<◌, ◌≡◌, refl, arith}
use ptf.Prelude.Family.{update, sum_of, sum_of-update}
use ptf.Transaction.{Usage}
use ptf.Script.Counters.{
  User, outside, Move, call_enter, load_enter, win_enter, lose_enter, call_exit, load_exit,
  win_exit, lose_exit, load_count, win_count, lose_count, System, Step, pick, Reach, start, later,
  is_inside,
}

-- With `k` threads inside and `d` exits counted, from the counters `a` and `b` on
abbrev Counted : (a b k d : ℕ) → Usage → Type 0
Counted a b k d u = (u.using ≡ (a + k) % 2 ^ 64) × (u.used ≡ (b + d) % 2 ^ 64)

same_counts : (a b k k' d : ℕ) {u : Usage} → k' ≡ k → Counted a b k d u → Counted a b k' (d + 0) u
same_counts a b k k' d e v = (omega (arith, v.0, e), omega (arith, v.1))

-- A move keeps the counters right for the number of threads inside that it leads to.
Move-Counted :
    (a b k k' d done : ℕ) {u u' : Usage} {p p' : User}
    → Move u p u' p' done
    → k' + is_inside p ≡ k + is_inside p'
    → Counted a b k d u
    → Counted a b k' (d + done) u'
Move-Counted a b k k' d done call_enter e v = same_counts a b k k' d (omega (arith, e)) v
Move-Counted a b k k' d done load_enter e v = same_counts a b k k' d (omega (arith, e)) v
Move-Counted a b k k' d done (win_enter now) e v = (omega (arith, v.0, now, e), omega (arith, v.1))
Move-Counted a b k k' d done (lose_enter other) e v = same_counts a b k k' d (omega (arith, e)) v
Move-Counted a b k k' d done call_exit e v = same_counts a b k k' d (omega (arith, e)) v
Move-Counted a b k k' d done load_exit e v = same_counts a b k k' d (omega (arith, e)) v
Move-Counted a b k k' d done (win_exit now) e v = (omega (arith, v.0, now, e), omega (arith, v.1))
Move-Counted a b k k' d done (lose_exit other) e v = same_counts a b k k' d (omega (arith, e)) v
Move-Counted a b k k' d done load_count e v = same_counts a b k k' d (omega (arith, e)) v
Move-Counted a b k k' d done (win_count now) e v = (omega (arith, v.0, e), omega (arith, v.1, now))
Move-Counted a b k k' d done (lose_count other) e v = same_counts a b k k' d (omega (arith, e)) v

Step-Counted :
    (a b n : ℕ) {s t : System}
    → Step n s t
    → Counted a b (sum_of is_inside n s.users) s.exits s.usage
    → Counted a b (sum_of is_inside n t.users) t.exits t.usage
Step-Counted a b n {s} (pick i {u} {p} {done} lt m) v =
    Move-Counted a b (sum_of is_inside n s.users) (sum_of is_inside n (update s.users i p)) s.exits
      done m (sum_of-update is_inside n s.users i p lt) v

nobody : (n : ℕ) → sum_of is_inside n (λ _. outside) ≡ 0
nobody zero = refl
nobody (suc n) = omega (arith, nobody n)

-- However many threads enter and exit a script at once, and however their accesses interleave: `m_nUsing` is
-- what it was and the number of threads inside, and `m_nUsed` what it was and the number of
-- calls of `exit` that have returned, both modulo 2^64.
pub counters :
    (n : ℕ) {u : Usage} {s : System}
    → u.using < 2 ^ 64
    → u.used < 2 ^ 64
    → Reach n u s
    → (s.usage.using ≡ (u.using + sum_of is_inside n s.users) % 2 ^ 64)
      × (s.usage.used ≡ (u.used + s.exits) % 2 ^ 64)
counters n {u} small small' start = (omega (arith, small, nobody n), omega (arith, small'))
counters n {u} small small' (later w m) =
    Step-Counted u.using u.used n m (counters n small small' w)
