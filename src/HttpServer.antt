-- ===== src/HttpServer.antt =====
-- `BellHTTPServer` of main/io/BellHTTPServer.cpp over the model of its router. civetweb, another project's
-- code, is the parameter `civet`, and so are the handlers that a program registers. A text is the list of
-- its bytes.
mod Tests
pub mod Serving
use bell.Prelude.{
  ℕ, zero, suc, ◌%◌, Bool, true, false, List, [], ◌∷◌, ◌++◌, Option, none, some, length, ◌==◌,
  if◌then◌else◌,
}
use bell.Text.{c_string}
use bell.Text.Decimal.{to_string}
use bell.Router.{Part, Params, Node, empty_node, insert, find, same}

-- `Router::split` by the expression "/": the texts between the matches. What stands behind the last
-- match is a part if it is not empty; a text without a match is one part.
unfoldable pub pieces : List ℕ → Part → List Part
pieces [] [] = []
pieces [] (c ∷ part) = (c ∷ part) ∷ []
pieces (c ∷ cs) part =
    let rest = pieces cs (if c == b'/' then [] else part ++ c ∷ []) in
    if c == b'/' then part ∷ rest else rest

unfoldable pub has_slash : List ℕ → Bool
has_slash [] = false
has_slash (c ∷ cs) = if c == b'/' then true else has_slash cs

unfoldable pub split : List ℕ → List Part
unfolding pieces has_slash
split cs = if has_slash cs then pieces cs [] else cs ∷ []

-- `HTTPResponse`; `body` is `none` for a null pointer, and else has `bodySize` bytes. A
-- status is not negative.
pub record HttpResponse : Type 0 where
  pub body : Option (List ℕ)
  pub headers : List (List ℕ × List ℕ)
  pub status : ℕ

abbrev pub content_type : List ℕ
content_type =
    b'C' ∷ b'o' ∷ b'n' ∷ b't' ∷ b'e' ∷ b'n' ∷ b't' ∷ b'-' ∷ b'T' ∷ b'y' ∷ b'p' ∷ b'e' ∷ []

abbrev pub json_type : List ℕ
json_type =
    b'a' ∷ b'p' ∷ b'p' ∷ b'l' ∷ b'i' ∷ b'c' ∷ b'a' ∷ b't' ∷ b'i' ∷ b'o' ∷ b'n' ∷ b'/' ∷ b'j' ∷ b's'
    ∷ b'o' ∷ b'n' ∷ []

-- `makeEmptyResponse` and `makeJsonResponse`; `malloc` is taken to succeed.
abbrev pub make_empty_response : HttpResponse
make_empty_response = record { body = none; headers = []; status = 200 }

abbrev pub make_json_response : List ℕ → ℕ → HttpResponse
make_json_response json status = record {
  body = some json;
  headers = (content_type, json_type) ∷ [];
  status = status;
}

-- `reply->headers[name]`; a name that is missing gets an empty text.
unfoldable pub header_of : List ℕ → List (List ℕ × List ℕ) → List ℕ
header_of name [] = []
header_of name ((key, value) ∷ headers) = if same name key then value else header_of name headers

-- What a call of a handler ends with: a reply, a null pointer, or a `std::exception`.
pub data Called : Type 0 where
  replied : HttpResponse → Called
  nothing : Called
  threw : Called

-- What a server uses of civetweb and of the handlers, none of which is a null `std::function`. A handler
-- may use the connection too. `mg_printf` is given what its format and arguments print.
pub record Civet : Type 1 where
  pub Handler : Type 0
  pub State : Type 0
  pub call : Handler → State → Called × State
  pub mg_printf : List ℕ → State → State
  pub mg_write : List ℕ → State → State
  pub mg_set_user_connection_data : Params → State → State

-- How a callback ends: with true, with false, by an exception, or by a null pointer.
pub data Handled : Type 0 where
  accepted : Handled
  declined : Handled
  escaped : Handled
  fault : Handled

pub record Server (Handler : Type 0) : Type 0 where
  pub get_requests_router : Node Handler
  pub post_requests_router : Node Handler
  pub not_found_handler : Option Handler
  pub server_port : ℕ
  pub civet_web_options : List (List ℕ)
  pub added : List (List ℕ)

abbrev pub listening_ports : List ℕ
listening_ports =
    b'l' ∷ b'i' ∷ b's' ∷ b't' ∷ b'e' ∷ b'n' ∷ b'i' ∷ b'n' ∷ b'g' ∷ b'_' ∷ b'p' ∷ b'o' ∷ b'r' ∷ b't'
    ∷ b's' ∷ []

abbrev pub ok_text : List ℕ
ok_text = b' ' ∷ b'O' ∷ b'K' ∷ []

abbrev pub http_version : List ℕ
http_version = b'H' ∷ b'T' ∷ b'T' ∷ b'P' ∷ b'/' ∷ b'1' ∷ b'.' ∷ b'1' ∷ b' ' ∷ []

abbrev pub crlf : List ℕ
crlf = 13 ∷ 10 ∷ []

abbrev pub allow_origin : List ℕ
allow_origin =
    b'A' ∷ b'c' ∷ b'c' ∷ b'e' ∷ b's' ∷ b's' ∷ b'-' ∷ b'C' ∷ b'o' ∷ b'n' ∷ b't' ∷ b'r' ∷ b'o' ∷ b'l'
    ∷ b'-' ∷ b'A' ∷ b'l' ∷ b'l' ∷ b'o' ∷ b'w' ∷ b'-' ∷ b'O' ∷ b'r' ∷ b'i' ∷ b'g' ∷ b'i' ∷ b'n'
    ∷ b':' ∷ b' ' ∷ b'*' ∷ []

abbrev pub connection_close : List ℕ
connection_close =
    b'C' ∷ b'o' ∷ b'n' ∷ b'n' ∷ b'e' ∷ b'c' ∷ b't' ∷ b'i' ∷ b'o' ∷ b'n' ∷ b':' ∷ b' ' ∷ b'c' ∷ b'l'
    ∷ b'o' ∷ b's' ∷ b'e' ∷ []

-- What `mg_printf` is given: the head of a reply. `%s` ends at a NUL.
unfoldable pub head_text : HttpResponse → List ℕ
head_text reply =
    http_version
    ++ (to_string reply.status
        ++ (ok_text
            ++ (crlf
                ++ (content_type
                    ++ ((b':' ∷ b' ' ∷ [])
                        ++ (c_string (header_of content_type reply.headers)
                            ++ (crlf
                                ++ (allow_origin
                                    ++ (crlf ++ (connection_close ++ (crlf ++ crlf)))))))))))

-- The constructor, less the calls that start civetweb. A port is not negative.
unfoldable pub new_server : {Handler : Type 0} → ℕ → Server Handler
new_server server_port = record {
  get_requests_router = empty_node;
  post_requests_router = empty_node;
  not_found_handler = none;
  server_port = server_port;
  civet_web_options = listening_ports ∷ to_string server_port ∷ [];
  added = [];
}

module _ (civet : Civet) where
  open civet use {Handler, State, call, mg_printf, mg_write, mg_set_user_connection_data}

  -- `registerGet`, `registerPost` and `registerNotFound`; `added` has the URLs of `addHandler`.
  unfoldable pub register_get : List ℕ → Handler → Server Handler → Server Handler
  register_get url handler s = record s {
    added = url ∷ s.added;
    get_requests_router = insert (split url) handler s.get_requests_router;
  }

  unfoldable pub register_post : List ℕ → Handler → Server Handler → Server Handler
  register_post url handler s = record s {
    added = url ∷ s.added;
    post_requests_router = insert (split url) handler s.post_requests_router;
  }

  unfoldable pub register_not_found : Handler → Server Handler → Server Handler
  register_not_found handler s = record s { not_found_handler = some handler }

  -- The `try` block of `handleGet` and `handlePost`.
  send_body : HttpResponse → Option (List ℕ) → State → Handled × State
  send_body reply none c = (accepted, c)
  send_body reply (some body) c = (accepted, mg_write body (mg_printf (head_text reply) c))

  unfoldable pub answer : Called × State → Handled × State
  unfolding send_body
  answer (replied reply, c) = send_body reply reply.body c
  answer (nothing, c) = (fault, c)
  answer (threw, c) = (declined, c)

  unfoldable pub serve : Handler → Params → State → Handled × State
  unfolding answer
  serve handler params c = answer (call handler (mg_set_user_connection_data params c))

  -- The reply of the handler for what is not found is dropped.
  abbrev pub dropped : Called × State → Handled × State
  dropped (replied reply, c) = (accepted, c)
  dropped (nothing, c) = (accepted, c)
  dropped (threw, c) = (escaped, c)

  unfoldable pub missing : Option Handler → State → Handled × State
  missing none c = (declined, c)
  missing (some handler) c = dropped (call handler c)

  unfoldable pub get_found : Server Handler → Option Handler × Params → State → Handled × State
  get_found s (none, params) c = missing s.not_found_handler c
  get_found s (some handler, params) c = serve handler params c

  -- `handleGet` of a request for `local_uri`.
  unfoldable pub handle_get : Server Handler → List ℕ → State → Handled × State
  unfolding get_found missing
  handle_get s local_uri c = get_found s (find (split local_uri) s.get_requests_router []) c

  unfoldable pub post_found : Option Handler × Params → State → Handled × State
  post_found (none, params) c = (declined, c)
  post_found (some handler, params) c = serve handler params c

  unfoldable pub handle_post : Server Handler → List ℕ → State → Handled × State
  unfolding post_found
  handle_post s local_uri c = post_found (find (split local_uri) s.post_requests_router []) c

-- `WSState`, and what the two handlers of a web socket are called with.
pub data WsState : Type 0 where
  connected : WsState
  ready : WsState
  closed : WsState

pub data WsCall : Type 0 where
  state : WsState → WsCall
  text : List ℕ → WsCall

-- `handleConnection`, `handleReadyState`, `handleData` and `handleClose` of `WebSocketHandler`: the calls,
-- and what is returned.
abbrev pub handle_connection : Bool × List WsCall
handle_connection = (true, state connected ∷ [])

abbrev pub handle_ready_state : List WsCall
handle_ready_state = state ready ∷ []

unfoldable pub handle_data : ℕ → List ℕ → Bool × List WsCall
handle_data flags bytes =
    if flags % 16 == 8 then (false, state closed ∷ []) else (true, text bytes ∷ [])

abbrev pub handle_close : List WsCall
handle_close = state closed ∷ []
