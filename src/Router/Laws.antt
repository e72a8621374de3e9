-- ===== src/Router/Laws.antt =====
-- What a route that was put into the tree of main/io/BellHTTPServer.cpp is found by.
use bell.Prelude.{
  ◌≡◌, ◌↔◌, refl, ap, ◌∙◌, Bool, true, false, List, [], ◌∷◌, Option, none, some, drop,
  if◌then◌else◌, arith,
}
use bell.Router.{
  Part, same, begins_with, Params, Node, Children, node, no_child, child, empty_node, get_child,
  set_child, or_empty, insert, find,
}

pub same_iff : (p q : Part) → (same p q ≡ true) ↔ (p ≡ q)
unfolding same
same_iff [] [] = (λ _. refl, λ _. refl)
same_iff [] (d ∷ q) = (λ e. absurd (cc), λ e. absurd (cc))
same_iff (c ∷ p) [] = (λ e. absurd (cc), λ e. absurd (cc))
same_iff (c ∷ p) (d ∷ q) =
    (λ e. ground (arith, (same_iff p q).0), λ e. ground (arith, (same_iff p q).1))

same_self : (p : Part) → same p p ≡ true
same_self p = (same_iff p p).1 refl

module _ {Handler : Type 0} where
  -- A child that is set is found, and the others are left.
  pub get_child-set_child :
      (p q : Part) (m : Node Handler) (cs : Children Handler)
      → get_child q (set_child p m cs) ≡ (if same p q then some m else get_child q cs)
  unfolding get_child set_child
  get_child-set_child p q m no_child = refl
  get_child-set_child p q m (child r n cs) =
      ground (arith, same_iff r p, same_iff r q, same_iff p q, get_child-set_child p q m cs)

  pub get_child-set_child_self :
      (p : Part) (m : Node Handler) (cs : Children Handler)
      → get_child p (set_child p m cs) ≡ some m
  get_child-set_child_self p m cs =
      get_child-set_child p p m cs ∙ ap (λ b. if b then some m else get_child p cs) (same_self p)

-- No part is a parameter or a wildcard.
abbrev pub IsLiteral : List Part → Type 0
IsLiteral [] = Unit {0}
IsLiteral (p ∷ ps) = (begins_with b':' p ≡ false) × (begins_with b'*' p ≡ false) × IsLiteral ps

module _ {Handler : Type 0} where
  pub insert-literal :
      (p : Part) (ps : List Part) (h : Handler) (v : Option Handler) (b : Bool) (name : Part)
      (c : Bool) (cs : Children Handler)
      → begins_with b':' p ≡ false
      → begins_with b'*' p ≡ false
      → insert (p ∷ ps) h (node v b name c cs)
        ≡ node v b name c (set_child p (insert ps h (or_empty (get_child p cs))) cs)
  unfolding insert
  insert-literal p ps h v b name c cs colon star = rw (colon, star) refl

  pub find-child :
      (p : Part) (ps : List Part) (v : Option Handler) (b : Bool) (name : Part) (c : Bool)
      (cs : Children Handler) (n : Node Handler) (params : Params)
      → get_child p cs ≡ some n
      → find (p ∷ ps) (node v b name c cs) params ≡ find ps n params
  unfolding find
  find-child p ps v b name c cs n params e = ground arith

  find_end :
      (h : Handler) (n : Node Handler) (params : Params)
      → find [] (insert [] h n) params ≡ (some h, params)
  unfolding insert find
  find_end h (node v b name c cs) params = refl

  -- Whatever the tree holds, a route without parameters and wildcards that is put into it is found, with
  -- its handler and with no parameter added.
  pub find-insert :
      (ps : List Part) (h : Handler) (n : Node Handler) (params : Params)
      → IsLiteral ps
      → find ps (insert ps h n) params ≡ (some h, params)
  find-insert [] h n params lit = find_end h n params
  find-insert (p ∷ ps) h (node v b name c cs) params lit =
      ap (λ t. find (p ∷ ps) t params) (insert-literal p ps h v b name c cs lit.0 lit.1)
      ∙ find-child p ps v b name c _ (insert ps h (or_empty (get_child p cs))) params
          (get_child-set_child_self p (insert ps h (or_empty (get_child p cs))) cs)
      ∙ find-insert ps h (or_empty (get_child p cs)) params lit.2

-- How a route with parameters and a last wildcard is met by the parts of a request: a parameter is met by
-- any part but the empty one, and a wildcard by one part or more. The last list is what `find` adds.
pub data Meets : List Part → List Part → Params → Params → Type 0 where
  both_end : (params : Params) → Meets [] [] params params
  literal :
      (ps qs : List Part) (params : Params) {found : Params} (p : Part)
      → begins_with b':' p ≡ false
      → begins_with b'*' p ≡ false
      → Meets ps qs params found
      → Meets (p ∷ ps) (p ∷ qs) params found
  parameter :
      (ps qs : List Part) (params : Params) {found : Params} (p q : Part)
      → begins_with b':' p ≡ true
      → same [] q ≡ false
      → Meets ps qs ((drop 1 p, q) ∷ params) found
      → Meets (p ∷ ps) (q ∷ qs) params found
  wildcard :
      (ps qs : List Part) (params : Params) (p q : Part)
      → begins_with b':' p ≡ false
      → begins_with b'*' p ≡ true
      → Meets (p ∷ ps) (q ∷ qs) params ((b'*' ∷ b'*' ∷ [], b'*' ∷ []) ∷ params)

module _ {Handler : Type 0} where
  insert_empty_literal :
      (p : Part) (ps : List Part) (h : Handler)
      → begins_with b':' p ≡ false
      → begins_with b'*' p ≡ false
      → insert (p ∷ ps) h empty_node
        ≡ node none false [] false (set_child p (insert ps h empty_node) no_child)
  unfolding insert get_child
  insert_empty_literal p ps h colon star = rw (colon, star) refl

  insert_empty_parameter :
      (p : Part) (ps : List Part) (h : Handler)
      → begins_with b':' p ≡ true
      → insert (p ∷ ps) h empty_node
        ≡ node none true (drop 1 p) false (child [] (insert ps h empty_node) no_child)
  unfolding insert set_child get_child
  insert_empty_parameter p ps h colon = rw colon refl

  insert_empty_wildcard :
      (p : Part) (ps : List Part) (h : Handler)
      → begins_with b':' p ≡ false
      → begins_with b'*' p ≡ true
      → insert (p ∷ ps) h empty_node ≡ node (some h) false [] true no_child
  unfolding insert
  insert_empty_wildcard p ps h colon star = rw (colon, star) refl

  find_parameter :
      (q : Part) (qs : List Part) (name : Part) (n : Node Handler) (params : Params)
      → same [] q ≡ false
      → find (q ∷ qs) (node none true name false (child [] n no_child)) params
        ≡ find qs n ((name, q) ∷ params)
  unfolding find get_child same
  find_parameter q qs name n params other = ground arith

  find_wildcard :
      (q : Part) (qs : List Part) (h : Handler) (params : Params)
      → find (q ∷ qs) (node (some h) false [] true no_child) params
        ≡ (some h, (b'*' ∷ b'*' ∷ [], b'*' ∷ []) ∷ params)
  unfolding find get_child
  find_wildcard q qs h params = refl

  -- A route put into an empty tree is found by the parts that meet it, with its handler; to each parameter
  -- it gives the part that stands in its place, and to `**` a star.
  pub find-insert-Meets :
      (h : Handler) {ps qs : List Part} {params found : Params}
      → Meets ps qs params found
      → find qs (insert ps h empty_node) params ≡ (some h, found)
  find-insert-Meets h (both_end params) = find_end h empty_node params
  find-insert-Meets h (literal ps qs params p colon star m) =
      ap (λ t. find (p ∷ qs) t params) (insert_empty_literal p ps h colon star)
      ∙ find-child p qs none false [] false _ (insert ps h empty_node) params
          (get_child-set_child_self p (insert ps h empty_node) no_child)
      ∙ find-insert-Meets h m
  find-insert-Meets h (parameter ps qs params p q colon other m) =
      ap (λ t. find (q ∷ qs) t params) (insert_empty_parameter p ps h colon)
      ∙ find_parameter q qs (drop 1 p) (insert ps h empty_node) params other
      ∙ find-insert-Meets h m
  find-insert-Meets h (wildcard ps qs params p q colon star) =
      ap (λ t. find (q ∷ qs) t params) (insert_empty_wildcard p ps h colon star)
      ∙ find_wildcard q qs h params
