-- ===== src/Socket/Opening/Filled.antt =====
-- The pools that src/socketpool.C makes of an address and a port.
use ptf.Prelude.{
  upto, append_assoc, ◌/◌, ℕ, zero, suc, ◌+◌, ◌^◌, ◌%◌, ◌<◌, ◌≡◌, ◌≢◌, refl, sym, ap, ◌∙◌, false,
  Option, none, Bool-cases, inl, inr, some, List, [], ◌∷◌, ◌++◌, append-nil, map, arith, ◌==◌, ltb,
  lt→ltb, length, length-append,
}
use ptf.Prelude.Int.{pos}
use ptf.Http.Text.{Text}
use ptf.Text.{atoi, digits, to_string}
use ptf.Text.Number.{atoi-to_string}
use ptf.Socket.Opening.{token, strtok, parse_address, Opened, sin_addr, open_sockets, new_pool}

abbrev pub NoColon : Text → Type 0
NoColon [] = Unit
NoColon (c ∷ cs) = ((c == b':') ≡ false) × NoColon cs

token-NoColon : (t rest : Text) → NoColon t → token (t ++ (b':' ∷ rest)) ≡ (t, rest)
token-NoColon [] rest h = refl
token-NoColon (c ∷ cs) rest h = rw (h.0, token-NoColon cs rest h.1) refl

token-last : (t : Text) → NoColon t → token t ≡ (t, [])
token-last [] h = refl
token-last (c ∷ cs) h = rw (h.0, token-last cs h.1) refl

strtok-first : (t rest : Text) → t ≢ [] → NoColon t → strtok (t ++ (b':' ∷ rest)) ≡ some (t, rest)
unfolding strtok
strtok-first [] rest ne h = absurd (ne refl)
strtok-first (c ∷ cs) rest ne h =
    rw (strtok, h.0) (ap (λ p. some p) (token-NoColon (c ∷ cs) rest h))

strtok-last : (t : Text) → t ≢ [] → NoColon t → strtok t ≡ some (t, [])
unfolding strtok
strtok-last [] ne h = absurd (ne refl)
strtok-last (c ∷ cs) ne h = rw (strtok, h.0) (ap (λ p. some p) (token-last (c ∷ cs) h))

abbrev pub opened_at : (ℕ → ℕ) → ℕ → ℕ → ℕ → Opened
opened_at address host port i = record { address = address i; host = host; port = port }

open_sockets-upto :
    (address : ℕ → ℕ) (host port i count : ℕ) (q : List Opened)
    → open_sockets address host port i count q
      ≡ q ++ map (opened_at address host port) (upto i count)
unfolding open_sockets
open_sockets-upto address host port i zero q = sym (append-nil q)
open_sockets-upto address host port i (suc n) q =
    open_sockets-upto address host port (i + 1) n (q ++ (opened_at address host port i ∷ []))
    ∙ append_assoc q (opened_at address host port i ∷ [])
        (map (opened_at address host port) (upto (i + 1) n))

-- The digits of a number hold no colon.
digits-NoColon : (fuel n : ℕ) (out : Text) → NoColon out → NoColon (digits fuel n out)
unfolding digits
digits-NoColon zero n out h = h
digits-NoColon (suc fuel) n out h = elim (Bool-cases (ltb n 10)) [
  | inl small ↦ rw small (ground arith, h)
  | inr large ↦ rw large (digits-NoColon fuel (n / 10) ((b'0' + n % 10) ∷ out) (ground arith, h))
]

digits-ne : (fuel n : ℕ) (out : Text) → n < fuel → digits fuel n out ≢ []
unfolding digits
digits-ne zero n out h = absurd (omega arith)
digits-ne (suc fuel) n out h = elim (Bool-cases (ltb n 10)) [
  | inl small ↦ rw small (λ e. absurd (cc (e)))
  | inr large ↦ rw large (digits-ne fuel (n / 10) ((b'0' + n % 10) ∷ out) (ground arith))
]

parsed :
    (ip : Text) (port : ℕ)
    → ip ≢ []
    → NoColon ip
    → port < 2 ^ 31
    → length ip + 1 + length (to_string port) < 20
    → parse_address (ip ++ (b':' ∷ to_string port)) ≡ some (ip, pos port)
unfolding parse_address to_string
parsed ip port ne h small fits =
    rw
      (
        parse_address,
        lt→ltb (length (ip ++ (b':' ∷ to_string port))) 20 short,
        strtok-first ip (to_string port) ne h,
        strtok-last (to_string port) (digits-ne (suc port) port [] (omega arith))
            (digits-NoColon (suc port) port [] tt),
        read,
      )
      refl
  where
    short : length (ip ++ (b':' ∷ to_string port)) < 20
    short = omega (arith, length-append ip (b':' ∷ to_string port), fits)

    read : atoi (to_string port) ≡ pos port
    read = ap atoi (sym (append-nil (to_string port))) ∙ atoi-to_string port [] small tt

-- For an address without a colon that is not empty and a port of 16 bits, which together fit into
-- the buffer, the pool gets its sockets, one after the other, each to be connected to that port of
-- the address that inet_pton reads, and of 0.0.0.0 where inet_pton does not read it.
pub new_pool-to_string :
    (inet_pton : Text → Option ℕ) (address : ℕ → ℕ) (count : ℕ) (ip : Text) (port : ℕ)
    → ip ≢ []
    → NoColon ip
    → port < 2 ^ 16
    → length ip + 1 + length (to_string port) < 20
    → ((host : ℕ)
        → inet_pton ip ≡ some host
        → new_pool inet_pton address count (ip ++ (b':' ∷ to_string port))
          ≡ some (map (opened_at address host port) (upto 0 count)))
      × (inet_pton ip ≡ none
          → new_pool inet_pton address count (ip ++ (b':' ∷ to_string port))
            ≡ some (map (opened_at address 0 port) (upto 0 count)))
unfolding new_pool
new_pool-to_string inet_pton address count ip port ne h small fits =
    (λ host e. made host (rw (e, sin_addr)), λ e. made 0 (rw (e, sin_addr)))
  where
    made :
        (host : ℕ)
        → sin_addr inet_pton ip ≡ host
        → new_pool inet_pton address count (ip ++ (b':' ∷ to_string port))
          ≡ some (map (opened_at address host port) (upto 0 count))
    made host e =
        rw (new_pool, parsed ip port ne h (omega arith) fits, e)
          (ap (λ p. some (open_sockets address host p 0 count [])) (omega arith)
            ∙ ap (λ q. some q) (open_sockets-upto address host port 0 count []))
