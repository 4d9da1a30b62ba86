-- ===== src/Steps/Web/Sent.antt =====
-- The requests that `send` of src/httpstep.C makes from the text of a script.
use ptf.Prelude.{
  ℕ, ◌≡◌, refl, sym, ap, ◌∙◌, ◌≢◌, true, false, Option, none, some, List, [], ◌∷◌, ◌++◌, map,
  length, ltb, arith, ne→==,
}
use ptf.Prelude.Int.{ℤ}
use ptf.Http.Text.{Text, has}
use ptf.Http.Parser.{newline, space, fresh, parse}
use ptf.Http.Parser.Lines.{render, NoNewline}
use ptf.Http.Parser.Whole.{Field, field_line, enter, parse-request}
use ptf.Text.{codes, text_eq}
use ptf.Transaction.{succ}
use ptf.Pool.Task.{find}
use ptf.Pool.Task.Binding.{at-found}
use ptf.Steps.Web.{
  WebStep, Client, Method, get, post, Made, World, peer_of, connection_for, keep, make_request,
  send_over, send_step,
}

abbrev pub method_text : Method → Text
method_text get = codes "GET"
method_text post = codes "POST"

-- What a script says of a request: a method that the program makes requests for, a URL, a version, header
-- fields, and what follows the last newline.
pub record Page : Type 0 where
  pub method : Method
  pub url : Text
  pub version : Text
  pub fields : List Field
  pub rest : Text

abbrev pub first_line : Page → Text
first_line p = method_text p.method ++ space ∷ (p.url ++ space ∷ p.version)

abbrev pub header_of : Page → Text
header_of p = render (first_line p ∷ map field_line p.fields) p.rest

-- The request line has two spaces, and newlines stand between lines alone.
pub record WellFormed (p : Page) : Type 0 where
  pub no_space : has space p.url ≡ false
  pub lines : NoNewline (first_line p ∷ map field_line p.fields)
  pub no_newline : has newline p.rest ≡ false

-- The request that is made of it over a connection.
abbrev pub made_of : Page → Text → Option Text × ℤ → Made
made_of p body peer = record {
  peer = peer;
  method = p.method;
  url = p.url ++ space ∷ [];
  headers = enter p.fields [];
  body = body;
}

method_no_space : (k : Method) → has space (method_text k) ≡ false
unfolding has
method_no_space get = refl
method_no_space post = refl

parse-header_of :
    (p : Page)
    → WellFormed p
    → parse (header_of p) fresh
      ≡ some (record {
        method = method_text p.method;
        url = p.url ++ space ∷ [];
        headers = enter p.fields [];
      })
parse-header_of p v =
    (parse-request (method_text p.method) p.url p.version p.fields p.rest (method_no_space p.method)
      v.no_space v.lines v.no_newline).0

nonempty : (url : Text) → ltb 0 (length (url ++ space ∷ [])) ≡ true
nonempty [] = refl
nonempty (c ∷ cs) = ground arith

make_request-page :
    (k : Method) (p : Page) (body : Text) (peer : Option Text × ℤ) (w : World)
    → make_request peer
        (record { method = method_text k; url = p.url ++ space ∷ []; headers = enter p.fields [] })
        body
        w
      ≡ (succ, record w { made = w.made ++ (made_of (record p { method = k }) body peer ∷ []) })
unfolding make_request text_eq
make_request-page get p body peer w = rw (nonempty p.url, make_request)
make_request-page post p body peer w = rw (nonempty p.url, make_request)

-- The step's world after a request over the connection `c` to a peer.
abbrev pub after_send : ℕ → Option Text × ℤ → Page → Text → World → World
after_send c peer p body w = record w {
  host = codes "http://" ++ w.host;
  connections = keep c peer w.connections;
  made = w.made ++ (made_of p body peer ∷ []);
}

send_over-page :
    (client : Client) (c : ℕ) (s : WebStep) (w : World) (p : Page) {peer : Option Text × ℤ}
    → c ≢ 0
    → connection_for client (codes "http://" ++ w.host) (w.connections c) ≡ some peer
    → s.header ≡ header_of p
    → WellFormed p
    → send_over client s (c, w.cps_map) w ≡ (succ, some (after_send c peer p s.body w))
unfolding send_over
send_over-page client c s w p {peer} ne connected header v =
    rw (ne→== c 0 ne, send_over, connected, header, parse-header_of p v)
      (ap (λ r. (r.0, some r.1))
        (make_request-page p.method p s.body peer
          (record w { host = codes "http://" ++ w.host; connections = keep c peer w.connections })))

-- On a thread with a connection, `send` of a well-formed header makes one request: with the method, the
-- header fields and the body of the script, the URL with a space behind it, to the peer of the connection or
-- of the new one.
pub send_step-page :
    (client : Client) (thread c : ℕ) (s : WebStep) (w : World) (p : Page) {peer : Option Text × ℤ}
    → find thread w.cps_map ≡ some c
    → c ≢ 0
    → connection_for client (codes "http://" ++ w.host) (w.connections c) ≡ some peer
    → s.header ≡ header_of p
    → WellFormed p
    → send_step client thread s (some w) ≡ (succ, some (after_send c peer p s.body w))
unfolding send_step
send_step-page client thread c s w p found ne connected header v =
    ap (λ x. send_over client s x w) (at-found thread c w.cps_map found)
    ∙ send_over-page client c s w p ne connected header v

new_connection :
    (client : Client) (host : Text)
    → ((h : Option Text) (port : ℤ) → client.connect h port ≡ true)
    → connection_for client host none ≡ some (peer_of client host)
unfolding connection_for
new_connection client host up = rw (up (peer_of client host).0 (peer_of client host).1)

-- Two threads with a connection object each, and no connection made yet, that run one step: the second
-- connection is made for the host with "http://" before it twice.
pub send_step-second_thread :
    (client : Client) (a b c d : ℕ) (s : WebStep) (w : World) (p : Page)
    → find a w.cps_map ≡ some c
    → find b w.cps_map ≡ some d
    → c ≢ 0
    → d ≢ 0
    → c ≢ d
    → w.connections c ≡ none
    → w.connections d ≡ none
    → ((h : Option Text) (port : ℤ) → client.connect h port ≡ true)
    → s.header ≡ header_of p
    → WellFormed p
    → let first = peer_of client (codes "http://" ++ w.host) in
      let second = peer_of client (codes "http://" ++ (codes "http://" ++ w.host)) in
      send_step client b s (send_step client a s (some w)).1
      ≡ (succ, some (after_send d second p s.body (after_send c first p s.body w)))
send_step-second_thread client a b c d s w p fa fb nc nd differ empty_c empty_d up header v =
    let first = peer_of client (codes "http://" ++ w.host) in
    ap (λ r. send_step client b s r.1)
      (send_step-page client a c s w p fa nc
        (ap (connection_for client (codes "http://" ++ w.host)) empty_c
          ∙ new_connection client (codes "http://" ++ w.host) up)
        header v)
    ∙ send_step-page client b d s (after_send c first p s.body w) p fb nd
        (ap (connection_for client (codes "http://" ++ (codes "http://" ++ w.host)))
            (rw (ne→== d c (λ e. differ (sym e))) empty_d)
          ∙ new_connection client (codes "http://" ++ (codes "http://" ++ w.host)) up)
        header v
