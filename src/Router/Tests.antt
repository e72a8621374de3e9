-- ===== src/Router/Tests.antt =====
-- Routes of a small server; a handler is a number.
use bell.Prelude.{ℕ, ◌≡◌, refl, true, false, [], ◌∷◌, some, none}
use bell.Router.{
  Part, Node, Children, node, child, no_child, empty_node, same, begins_with, get_child, insert,
  find,
}
use bell.Router.Longer.{find-insert_longer}
use bell.Router.Laws.{find-insert-Meets, literal, parameter, both_end}

-- "users", ":id", "42" and "*"
abbrev users : Part
users = b'u' ∷ b's' ∷ []

abbrev id : Part
id = b':' ∷ b'i' ∷ b'd' ∷ []

abbrev forty_two : Part
forty_two = b'4' ∷ b'2' ∷ []

plain : begins_with b':' users ≡ false
unfolding begins_with
plain = refl

plain' : begins_with b'*' users ≡ false
unfolding begins_with
plain' = refl

number : begins_with b':' forty_two ≡ false
unfolding begins_with
number = refl

number' : begins_with b'*' forty_two ≡ false
unfolding begins_with
number' = refl

colon : begins_with b':' id ≡ true
unfolding begins_with
colon = refl

filled : same [] forty_two ≡ false
unfolding same
filled = refl

-- The tree that already has another handler for the parameter
abbrev with_id : Node ℕ
with_id = insert (users ∷ id ∷ []) 1 empty_node

find-insert-Meets_example :
    find {Handler = ℕ} (users ∷ forty_two ∷ []) (insert (users ∷ id ∷ []) 1 empty_node) []
    ≡ (some 1, ((b'i' ∷ b'd' ∷ []), forty_two) ∷ [])
find-insert-Meets_example = find-insert-Meets 1 (
    literal (id ∷ []) (forty_two ∷ []) [] users plain plain'
      (parameter [] [] [] id forty_two colon filled (both_end _)))

-- The parameter alone
abbrev only_id : Children ℕ
only_id = child [] (node (some 1) false [] false no_child) no_child

find-parameter :
    find (forty_two ∷ []) (node none true (b'i' ∷ b'd' ∷ []) false only_id) []
    ≡ (some 1, ((b'i' ∷ b'd' ∷ []), forty_two) ∷ [])
unfolding find get_child same
find-parameter = refl

new_part : get_child forty_two only_id ≡ none
unfolding get_child same
new_part = refl

find-insert_longer_example :
    find {Handler = ℕ}
      (forty_two ∷ [])
      (insert (forty_two ∷ users ∷ []) 2 (node none true (b'i' ∷ b'd' ∷ []) false only_id))
      []
    ≡ (none, [])
find-insert_longer_example =
    find-insert_longer forty_two users [] 2 none true (b'i' ∷ b'd' ∷ []) false only_id [] number
      number' plain' new_part
