-- ===== src/HttpServer/Tests.antt =====
-- A small server of main/io/BellHTTPServer.cpp at concrete requests: a handler is a number, and the state is
-- what was written.
use bell.Prelude.{ℕ, zero, suc, ◌≡◌, refl, false, List, [], ◌∷◌, ◌++◌, none}
use bell.Router.{begins_with, insert, find, get_child, set_child, same}
use bell.HttpServer.{
  Called, Civet, Server, accepted, declined, escaped, replied, threw, nothing, closed, state,
  make_json_response, make_empty_response, split, handle_get, handle_post, handle_data, new_server,
  head_text, register_get, register_post, register_not_found, serve,
}
use bell.HttpServer.Serving.{
  AreLiteral, gets, posts, latest, not_found_of, reply_by, Registration, get, post, not_found,
  registered, handle_get-registered,
}

-- Handler 1 replies with a text, handler 2 with nothing, the others fail.
called : ℕ → List ℕ → Called × List ℕ
called zero written = (threw, written)
called (suc zero) written = (replied (make_json_response (b'{' ∷ b'}' ∷ []) 200), written)
called (suc (suc zero)) written = (replied make_empty_response, written)
called (suc (suc (suc zero))) written = (nothing, written)
called (suc (suc (suc (suc k)))) written = (threw, written)

abbrev civet : Civet
civet = record {
  Handler = ℕ;
  State = List ℕ;
  call = called;
  mg_printf = λ text written. written ++ text;
  mg_write = λ bytes written. written ++ bytes;
  mg_set_user_connection_data = λ params written. written;
}

-- /a and /a/b
abbrev a : List ℕ
a = b'/' ∷ b'a' ∷ []

abbrev a_b : List ℕ
a_b = b'/' ∷ b'a' ∷ b'/' ∷ b'b' ∷ []

split-a_b : split a_b ≡ [] ∷ (b'a' ∷ []) ∷ (b'b' ∷ []) ∷ []
unfolding split
split-a_b = refl

split-end : split (b'/' ∷ b'a' ∷ b'/' ∷ []) ≡ [] ∷ (b'a' ∷ []) ∷ []
unfolding split
split-end = refl

abbrev registrations : List (Registration civet)
registrations = get a 1 ∷ post a_b 2 ∷ not_found 4 ∷ get a 3 ∷ get a_b 2 ∷ []

abbrev server : Server ℕ
server = registered civet registrations (new_server 80)

replies_text :
    handle_get civet server a []
    ≡ (accepted, head_text (make_json_response (b'{' ∷ b'}' ∷ []) 200) ++ (b'{' ∷ b'}' ∷ []))
unfolding handle_get registered new_server split find insert get_child begins_with called same
    register_get register_post register_not_found set_child head_text serve
replies_text = refl

handler_escapes : handle_get civet server (b'/' ∷ b'b' ∷ []) [] ≡ (escaped, [])
unfolding handle_get registered new_server split find insert get_child begins_with called same
    register_get register_post register_not_found set_child
handler_escapes = refl

declines_post : handle_post civet server a [] ≡ (declined, [])
unfolding handle_post registered new_server split find insert get_child begins_with called same
    register_get register_post register_not_found set_child
declines_post = refl

close_frame : handle_data 136 [] ≡ (false, state closed ∷ [])
unfolding handle_data
close_frame = refl

gets-AreLiteral : AreLiteral (gets civet registrations)
unfolding AreLiteral gets split begins_with
gets-AreLiteral = (
  (refl, refl, (refl, refl, tt)),
  ((refl, refl, (refl, refl, tt)), ((refl, refl, (refl, refl, (refl, refl, tt))), tt)),
)

posts-AreLiteral : AreLiteral (posts civet registrations)
unfolding AreLiteral posts split begins_with
posts-AreLiteral = ((refl, refl, (refl, refl, (refl, refl, tt))), tt)

handle_get-registered_example :
    (handle_get civet server a []
      ≡ reply_by civet
          (latest (split a) (gets civet registrations))
          (not_found_of civet registrations)
          [])
    × (handle_post civet server a []
        ≡ reply_by civet (latest (split a) (posts civet registrations)) none [])
handle_get-registered_example =
    handle_get-registered civet registrations 80 a [] gets-AreLiteral posts-AreLiteral
