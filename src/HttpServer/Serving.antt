-- ===== src/HttpServer/Serving.antt =====
-- What requests are answered with after registrations, `handleGet` and `handlePost` of
-- main/io/BellHTTPServer.cpp: an association list in place of the two trees.
use bell.Prelude.{
  ℕ, ◌≡◌, refl, ap, ◌∙◌, List, [], ◌∷◌, Option, none, some, if◌then◌else◌, Bool-cases, Option-cases,
  inl, inr,
}
use bell.Router.{Part, Node, empty_node, insert, find}
use bell.Router.Laws.{IsLiteral}
use bell.Router.Literal.{
  same_route, Plain, empty_node-Plain, insert-Plain, find-empty, find-insert_literal,
}
use bell.HttpServer.{
  Civet, Handled, declined, Server, new_server, split, register_get, register_post,
  register_not_found, answer, serve, dropped, missing, get_found, post_found, handle_get,
  handle_post,
}

-- The routes of one method, the latest first, and the handler of the latest one with these parts.
abbrev pub Table : Type 0 → Type 0
Table Handler = List (List ℕ × Handler)

unfoldable pub latest : {Handler : Type 0} → List Part → Table Handler → Option Handler
latest parts [] = none
latest parts ((url, handler) ∷ table) =
    if same_route (split url) parts then some handler else latest parts table

-- No route has a parameter or a wildcard.
unfoldable pub AreLiteral : {Handler : Type 0} → Table Handler → Type 0
AreLiteral [] = Unit {0}
AreLiteral ((url, handler) ∷ table) = IsLiteral (split url) × AreLiteral table

module _ (civet : Civet) where
  open civet use {Handler, State, call, mg_set_user_connection_data}

  -- A call of one of the three operations, and a sequence of calls with the latest first.
  pub data Registration : Type 0 where
    get : List ℕ → Handler → Registration
    post : List ℕ → Handler → Registration
    not_found : Handler → Registration

  unfoldable pub register : Registration → Server Handler → Server Handler
  register (get url handler) s = register_get civet url handler s
  register (post url handler) s = register_post civet url handler s
  register (not_found handler) s = register_not_found civet handler s

  unfoldable pub registered : List Registration → Server Handler → Server Handler
  unfolding register
  registered [] s = s
  registered (r ∷ rs) s = register r (registered rs s)

  unfoldable pub gets : List Registration → Table Handler
  gets [] = []
  gets (get url handler ∷ rs) = (url, handler) ∷ gets rs
  gets (post url handler ∷ rs) = gets rs
  gets (not_found handler ∷ rs) = gets rs

  unfoldable pub posts : List Registration → Table Handler
  posts [] = []
  posts (get url handler ∷ rs) = posts rs
  posts (post url handler ∷ rs) = (url, handler) ∷ posts rs
  posts (not_found handler ∷ rs) = posts rs

  unfoldable pub not_found_of : List Registration → Option Handler
  not_found_of [] = none
  not_found_of (get url handler ∷ rs) = not_found_of rs
  not_found_of (post url handler ∷ rs) = not_found_of rs
  not_found_of (not_found handler ∷ rs) = some handler

  -- The handler that is found gets no parameters, and its reply is written.
  unfoldable pub reply_by : Option Handler → Option Handler → State → Handled × State
  reply_by (some handler) other c = answer civet (call handler (mg_set_user_connection_data [] c))
  reply_by none (some handler) c = dropped civet (call handler c)
  reply_by none none c = (declined, c)

  -- The tree that a table makes.
  tree : Table Handler → Node Handler
  tree [] = empty_node
  tree ((url, handler) ∷ table) = insert (split url) handler (tree table)

  tree-Plain : (table : Table Handler) → AreLiteral table → Plain (tree table)
  unfolding tree AreLiteral
  tree-Plain [] lit = empty_node-Plain
  tree-Plain ((url, handler) ∷ table) lit =
      insert-Plain (split url) handler (tree table) lit.0 (tree-Plain table lit.1)

  find-tree :
      (parts : List Part) (table : Table Handler)
      → AreLiteral table
      → find parts (tree table) [] ≡ (latest parts table, [])
  unfolding tree AreLiteral latest
  find-tree parts [] lit = find-empty parts []
  find-tree parts ((url, handler) ∷ table) lit =
      find-insert_literal (split url) parts handler (tree table) [] lit.0 (tree-Plain table lit.1)
      ∙ elim (Bool-cases (same_route (split url) parts)) [
        | inl hit ↦ rw hit refl
        | inr miss ↦ rw miss (find-tree parts table lit.1)
      ]

  getter :
      (rs : List Registration) (server_port : ℕ)
      → (registered rs (new_server server_port)).get_requests_router ≡ tree (gets rs)
  unfolding registered register register_get register_post register_not_found gets tree new_server
  getter [] server_port = refl
  getter (get url handler ∷ rs) server_port =
      ap (insert (split url) handler) (getter rs server_port)
  getter (post url handler ∷ rs) server_port = getter rs server_port
  getter (not_found handler ∷ rs) server_port = getter rs server_port

  poster :
      (rs : List Registration) (server_port : ℕ)
      → (registered rs (new_server server_port)).post_requests_router ≡ tree (posts rs)
  unfolding registered register register_get register_post register_not_found posts tree new_server
  poster [] server_port = refl
  poster (get url handler ∷ rs) server_port = poster rs server_port
  poster (post url handler ∷ rs) server_port =
      ap (insert (split url) handler) (poster rs server_port)
  poster (not_found handler ∷ rs) server_port = poster rs server_port

  misser :
      (rs : List Registration) (server_port : ℕ)
      → (registered rs (new_server server_port)).not_found_handler ≡ not_found_of rs
  unfolding registered register register_get register_post register_not_found not_found_of
      new_server
  misser [] server_port = refl
  misser (get url handler ∷ rs) server_port = misser rs server_port
  misser (post url handler ∷ rs) server_port = misser rs server_port
  misser (not_found handler ∷ rs) server_port = refl

  get_by-reply_by :
      (s : Server Handler) (o : Option Handler) (c : State)
      → get_found civet s (o, []) c ≡ reply_by o s.not_found_handler c
  unfolding get_found reply_by serve missing
  get_by-reply_by s (some handler) c = refl
  get_by-reply_by s none c = elim (Option-cases s.not_found_handler) [
    | inl gone ↦ rw gone refl
    | inr (h, there) ↦ rw there refl
  ]

  post_by-reply_by :
      (o : Option Handler) (c : State) → post_found civet (o, []) c ≡ reply_by o none c
  unfolding post_found reply_by serve
  post_by-reply_by (some handler) c = refl
  post_by-reply_by none c = refl

  handle_get-latest :
      (s : Server Handler) (local_uri : List ℕ) (c : State) (o : Option Handler)
      → find (split local_uri) s.get_requests_router [] ≡ (o, [])
      → handle_get civet s local_uri c ≡ reply_by o s.not_found_handler c
  unfolding handle_get
  handle_get-latest s local_uri c o found =
      ap (λ f. get_found civet s f c) found ∙ get_by-reply_by s o c

  handle_post-latest :
      (s : Server Handler) (local_uri : List ℕ) (c : State) (o : Option Handler)
      → find (split local_uri) s.post_requests_router [] ≡ (o, [])
      → handle_post civet s local_uri c ≡ reply_by o none c
  unfolding handle_post
  handle_post-latest s local_uri c o found =
      ap (λ f. post_found civet f c) found ∙ post_by-reply_by o c

  -- Whatever was registered, in whatever order: on a server whose routes of the two methods have no
  -- parameter and no wildcard, a request is answered by the latest handler of its own method with the same
  -- parts as the request. Where there is none, a GET request gets the latest handler for what is not found,
  -- without its reply, and is declined if there is none either, and a POST request is declined.
  pub handle_get-registered :
      (rs : List Registration) (server_port : ℕ) (local_uri : List ℕ) (c : State)
      → AreLiteral (gets rs)
      → AreLiteral (posts rs)
      → (handle_get civet (registered rs (new_server server_port)) local_uri c
          ≡ reply_by (latest (split local_uri) (gets rs)) (not_found_of rs) c)
        × (handle_post civet (registered rs (new_server server_port)) local_uri c
            ≡ reply_by (latest (split local_uri) (posts rs)) none c)
  handle_get-registered rs server_port local_uri c lit lit' = (
    handle_get-latest (registered rs (new_server server_port)) local_uri c _
          (ap (λ t. find (split local_uri) t []) (getter rs server_port) ∙ find-tree _ _ lit)
        ∙ ap (λ o. reply_by (latest (split local_uri) (gets rs)) o c) (misser rs server_port),
    handle_post-latest (registered rs (new_server server_port)) local_uri c _
        (ap (λ t. find (split local_uri) t []) (poster rs server_port) ∙ find-tree _ _ lit'),
  )
