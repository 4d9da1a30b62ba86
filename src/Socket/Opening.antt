-- ===== src/Socket/Opening.antt =====
-- How src/socketpool.C makes connections and pools of them, and lets go of them. What libevent and
-- the sockets of the system do is outside the model.
pub mod Filled
mod Tests
use ptf.Prelude.{
  ℕ, zero, suc, ◌+◌, ◌-◌, ◌%◌, ◌^◌, Bool, Option, none, some, List, [], ◌∷◌, ◌++◌, ◌==◌, ltb,
  length, if◌then◌else◌,
}
use ptf.Prelude.Int.{ℤ, pos, negsuc}
use ptf.Prelude.Pointer.{Pointer, unassigned, live, release}
use ptf.Http.Text.{Text}
use ptf.Text.{atoi}

-- The pointers of a `CSocket` that its destructor looks at
pub record SocketPointers : Type 0 where
  pub ev_cmd : Pointer
  pub readbuff : Pointer
  pub writebuff : Pointer
  pub timeout_queue : Pointer

-- What a constructor leaves, TCP or not: only a TCP socket has buffers, and nobody assigns the others.
abbrev pub new_socket : (tcp : Bool) → SocketPointers
new_socket tcp = record {
  ev_cmd = unassigned;
  readbuff = if tcp then live else unassigned;
  writebuff = if tcp then live else unassigned;
  timeout_queue = unassigned;
}

-- `setTimeoutQueue`
abbrev pub set_timeout_queue : Pointer → SocketPointers → SocketPointers
set_timeout_queue queue s = record s { timeout_queue = queue }

-- `~CSocket`; `none` is undefined.
pub delete_socket : SocketPointers → Option SocketPointers
delete_socket s = elim (release s.ev_cmd) [
  | none ↦ none
  | some e ↦ elim (release s.readbuff) [
    | none ↦ none
    | some r ↦ elim (release s.writebuff) [
      | none ↦ none
      | some w ↦ elim (release s.timeout_queue) [
        | none ↦ none
        | some t ↦ some (record { ev_cmd = e; readbuff = r; writebuff = w; timeout_queue = t })
      ]
    ]
  ]
]

-- `CHttpConnection`, without its request and transaction
pub record HttpPointers : Type 0 where
  pub dns_base : Pointer
  pub connection : Pointer

-- `CHttpConnection::CHttpConnection`
abbrev pub new_http : HttpPointers
new_http = record { dns_base = unassigned; connection = unassigned }

-- `~CHttpConnection`; `none` is undefined.
pub delete_http : HttpPointers → Option HttpPointers
delete_http h = elim (release h.connection) [
  | none ↦ none
  | some c ↦ elim (release h.dns_base) [
    | none ↦ none
    | some d ↦ some (record { dns_base = d; connection = c })
  ]
]

-- What `recvMsg` comes to: NULL, or the end of the function without a value.
pub data Received : Type 0 where
  nothing no_value : Received

pub recv_msg : (sockfd : ℤ) (has_base : Bool) → Received
recv_msg (negsuc n) has_base = nothing
recv_msg (pos zero) has_base = nothing
recv_msg (pos (suc n)) has_base = if has_base then no_value else nothing

-- `strtok` by ":": what precedes the token, then the token and what is behind its end
abbrev pub skip_colons : Text → Text
skip_colons [] = []
skip_colons (c ∷ cs) = let rest = skip_colons cs in if c == b':' then rest else c ∷ cs

abbrev pub token : Text → Text × Text
token [] = ([], [])
token (c ∷ cs) = let (t, rest) = token cs in if c == b':' then ([], cs) else (c ∷ t, rest)

-- `none` is NULL.
pub strtok : Text → Option (Text × Text)
strtok t = elim (skip_colons t) [ [] ↦ none | c ∷ cs ↦ some (token (c ∷ cs)) ]

-- The address and the port that `CSocketPool` reads; `none` is undefined: the text and its 0 do not fit into `temp`, or
-- there are no two tokens.
pub parse_address : Text → Option (Text × ℤ)
parse_address t =
    if ltb (length t) 20
    then elim (strtok t) [
      | none ↦ none
      | some (ip, rest) ↦ elim (strtok rest) [ none ↦ none | some (port, _) ↦ some (ip, atoi port) ]
    ]
    else none

-- An `int` as a `uint16_t`
abbrev pub to_uint16 : ℤ → ℕ
to_uint16 (pos n) = n % 2 ^ 16
to_uint16 (negsuc n) = 2 ^ 16 - 1 - n % 2 ^ 16

-- A `CSocket` of a pool, by its address in memory, with the address and port that it asks libevent to connect to
pub record Opened : Type 0 where
  pub address : ℕ
  pub host : ℕ
  pub port : ℕ

-- `servaddr.sin_addr` in the constructor of a socket: it is cleared, and `inet_pton` leaves it so where the text is no
-- address.
abbrev pub sin_addr : (inet_pton : Text → Option ℕ) → Text → ℕ
sin_addr inet_pton ip = elim (inet_pton ip) [ none ↦ 0 | some a ↦ a ]

-- The loop of the constructor, from round `i` on; the socket of a round is made at `address i`.
pub open_sockets : (address : ℕ → ℕ) (host port i count : ℕ) → List Opened → List Opened
open_sockets address host port i zero q = q
open_sockets address host port i (suc n) q =
    open_sockets address host port (i + 1) n
      (q ++ (record { address = address i; host = host; port = port } ∷ []))

-- `CSocketPool::CSocketPool`, with what `inet_pton` makes of a text; `none` is undefined.
pub new_pool :
    (inet_pton : Text → Option ℕ) (address : ℕ → ℕ) (count : ℕ) → Text → Option (List Opened)
new_pool inet_pton address count t = elim (parse_address t) [
  | none ↦ none
  | some (ip, port) ↦
      some (open_sockets address (sin_addr inet_pton ip) (to_uint16 port) 0 count [])
]
