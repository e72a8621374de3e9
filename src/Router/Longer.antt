-- ===== src/Router/Longer.antt =====
-- A request at a node that only a longer route made, in the tree of main/io/BellHTTPServer.cpp.
use bell.Prelude.{
  ◌≡◌, refl, ap, ◌∙◌, Bool, false, List, [], ◌∷◌, Option, none, Bool-cases, inl, inr,
}
use bell.Router.{
  Part, Params, begins_with, Children, node, empty_node, get_child, or_empty, insert, find,
}
use bell.Router.Laws.{insert-literal, find-child, get_child-set_child_self}

module _ {Handler : Type 0} where
  -- A route that has a part puts no handler at the root, unless that part is a wildcard.
  no_handler :
      (r : Part) (rs : List Part) (g : Handler) (params : Params)
      → begins_with b'*' r ≡ false
      → find [] (insert (r ∷ rs) g empty_node) params ≡ (none, [])
  unfolding insert find
  no_handler r rs g params star = elim (Bool-cases (begins_with b':' r)) [
    | inl colon ↦ rw colon refl
    | inr plain ↦ rw (plain, star) refl
  ]

  -- A route whose first part is literal and new to the tree, and that goes on with no wildcard, takes the
  -- requests for this part alone away from the tree's parameter and wildcard: they are not found, whatever
  -- the tree had for them.
  pub find-insert_longer :
      (q r : Part) (rs : List Part) (g : Handler) (v : Option Handler) (b : Bool) (name : Part)
      (c : Bool) (cs : Children Handler) (params : Params)
      → begins_with b':' q ≡ false
      → begins_with b'*' q ≡ false
      → begins_with b'*' r ≡ false
      → get_child q cs ≡ none
      → find (q ∷ []) (insert (q ∷ r ∷ rs) g (node v b name c cs)) params ≡ (none, [])
  find-insert_longer q r rs g v b name c cs params colon star star' new =
      ap (λ t. find (q ∷ []) t params) (insert-literal q (r ∷ rs) g v b name c cs colon star)
      ∙ find-child q [] v b name c _ _ params (get_child-set_child_self q _ cs)
      ∙ ap (λ o. find [] (insert (r ∷ rs) g (or_empty o)) params) new
      ∙ no_handler r rs g params star'
