-- ===== src/Router.antt =====
-- `Router` of main/io/BellHTTPServer.cpp and its header: a tree of route parts. A route comes here as its
-- parts, which `split` of HttpServer makes. A part is the list of its bytes.
pub mod Laws
pub mod Literal
pub mod Longer
mod Tests
use bell.Prelude.{
  ℕ, ◌≡◌, ◌↔◌, refl, ap, ap₂, Bool, true, false, ◌&&◌, List, [], ◌∷◌, Option, none, some, drop,
  ◌==◌, if◌then◌else◌, arith,
}

abbrev pub Part : Type 0
Part = List ℕ

-- Equality of `std::string`.
unfoldable pub same : Part → Part → Bool
same [] [] = true
same [] (d ∷ q) = false
same (c ∷ p) [] = false
same (c ∷ p) (d ∷ q) = c == d && same p q

-- `part[0] == c`; the first byte of an empty string is 0.
unfoldable pub begins_with : ℕ → Part → Bool
begins_with c [] = c == 0
begins_with c (d ∷ p) = d == c

-- `unordered_map<string, string>`, the latest entry first.
abbrev pub Params : Type 0
Params = List (Part × Part)

module _ (Handler : Type 0) where
  -- `RouterNode` with its children; `value` is `none` where the handler is empty.
  mutual
    pub data Node : Type 0 where
      node : Option Handler → Bool → Part → Bool → Children → Node

    pub data Children : Type 0 where
      no_child : Children
      child : Part → Node → Children → Children

module _ {Handler : Type 0} where
  abbrev pub empty_node : Node Handler
  empty_node = node none false [] false no_child

  -- `children.count(part)`, with the child.
  unfoldable pub get_child : Part → Children Handler → Option (Node Handler)
  get_child part no_child = none
  get_child part (child p n rest) = if same p part then some n else get_child part rest

  -- `children[part] = n`
  unfoldable pub set_child : Part → Node Handler → Children Handler → Children Handler
  set_child part m no_child = child part m no_child
  set_child part m (child p n rest) =
      if same p part then child p m rest else child p n (set_child part m rest)

  abbrev pub or_empty : Option (Node Handler) → Node Handler
  or_empty none = empty_node
  or_empty (some n) = n

  -- `Router::insert` from a node on.
  unfoldable pub insert : List Part → Handler → Node Handler → Node Handler
  insert [] value (node v is_param name is_catch_all children) =
      node (some value) is_param name is_catch_all children
  insert (part ∷ parts) value (node v is_param name is_catch_all children) =
      let below = λ (key : Part).
        set_child key (insert parts value (or_empty (get_child key children))) children in
      if begins_with b':' part
      then node v true (drop 1 part) is_catch_all (below [])
      else if begins_with b'*' part
      then node (some value) is_param name true children
      else node v is_param name is_catch_all (below part)

  -- `Router::find` from a node on: the handler, `none` for `nullptr`, and the parameters.
  unfoldable pub find : List Part → Node Handler → Params → Option Handler × Params
  find [] (node none is_param name is_catch_all children) params = (none, [])
  find [] (node (some value) is_param name is_catch_all children) params = (some value, params)
  find (part ∷ parts) (node v is_param name is_catch_all children) params =
      elim (get_child part children) [
        | some n ↦ find parts n params
        | none ↦ elim is_param [
          | true ↦ elim (get_child [] children) [
            | some n ↦ find parts n ((name, part) ∷ params)
            | none ↦ (none, [])
          ]
          | false ↦ elim is_catch_all [
            | true ↦ (v, (b'*' ∷ b'*' ∷ [], b'*' ∷ []) ∷ params)
            | false ↦ (none, [])
          ]
        ]
      ]
