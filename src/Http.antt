-- ===== src/Http.antt =====
-- src/httpparser.h, src/httpparser.C: the text of an HTTP request, as a script gives it, taken apart.
-- src/protocol.C, src/socketpool.C: the frame of a response. A `string` is the list of its bytes.
pub mod Text
pub mod Headers
pub mod Parser
pub mod Frame
mod Tests
