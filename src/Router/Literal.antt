-- ===== src/Router/Literal.antt =====
-- Routes without parameters and wildcards in the tree of main/io/BellHTTPServer.cpp: a map by its parts.
use bell.Prelude.{
  ◌≡◌, refl, sym, ap, ◌∙◌, Bool, true, false, ◌&&◌, List, [], ◌∷◌, Option, none, some,
  if◌then◌else◌, Bool-cases, inl, inr, Option-cases,
}
use bell.Router.{
  Part, same, Params, Node, Children, node, no_child, child, empty_node, get_child, set_child,
  or_empty, insert, find,
}
use bell.Router.Laws.{IsLiteral, same_iff, get_child-set_child, insert-literal}

-- The same parts.
unfoldable pub same_route : List Part → List Part → Bool
same_route [] [] = true
same_route [] (q ∷ qs) = false
same_route (p ∷ ps) [] = false
same_route (p ∷ ps) (q ∷ qs) = same p q && same_route ps qs

module _ {Handler : Type 0} where
  -- No node of the tree is met by a parameter or a wildcard.
  mutual
    pub data Plain : Node Handler → Type 0 where
      plain :
          (v : Option Handler) (name : Part) (cs : Children Handler)
          → PlainAll cs
          → Plain (node v false name false cs)

    pub data PlainAll : Children Handler → Type 0 where
      no_more : PlainAll no_child
      one_more :
          (p : Part) (n : Node Handler) (cs : Children Handler)
          → Plain n
          → PlainAll cs
          → PlainAll (child p n cs)

  pub empty_node-Plain : Plain empty_node
  empty_node-Plain = plain none [] no_child no_more

  or_empty-Plain :
      (p : Part) (cs : Children Handler) → PlainAll cs → Plain (or_empty (get_child p cs))
  unfolding get_child
  or_empty-Plain p _ no_more = empty_node-Plain
  or_empty-Plain p _ (one_more q n cs pn pcs) = elim (Bool-cases (same q p)) [
    | inl hit ↦ rw hit pn
    | inr miss ↦ rw miss (or_empty-Plain p cs pcs)
  ]

  set_child-Plain :
      (p : Part) (m : Node Handler) (cs : Children Handler)
      → Plain m
      → PlainAll cs
      → PlainAll (set_child p m cs)
  unfolding set_child
  set_child-Plain p m _ pm no_more = one_more p m no_child pm no_more
  set_child-Plain p m _ pm (one_more q n cs pn pcs) = elim (Bool-cases (same q p)) [
    | inl hit ↦ rw hit (one_more q m cs pm pcs)
    | inr miss ↦ rw miss (one_more q n (set_child p m cs) pn (set_child-Plain p m cs pm pcs))
  ]

  pub insert-Plain :
      (ps : List Part) (h : Handler) (n : Node Handler)
      → IsLiteral ps
      → Plain n
      → Plain (insert ps h n)
  unfolding insert
  insert-Plain [] h _ lit (plain v name cs pcs) = plain (some h) name cs pcs
  insert-Plain (p ∷ ps) h _ lit (plain v name cs pcs) =
      rw (lit.0, lit.1)
        (plain v name _
          (set_child-Plain p _ cs (insert-Plain ps h _ lit.2 (or_empty-Plain p cs pcs)) pcs))

  pub find-empty :
      (qs : List Part) (params : Params)
      → find qs (empty_node {Handler = Handler}) params ≡ (none, [])
  unfolding find get_child
  find-empty [] params = refl
  find-empty (q ∷ qs) params = refl

  -- One part: the child, or nothing.
  find-plain :
      (q : Part) (qs : List Part) (v : Option Handler) (name : Part) (cs : Children Handler)
      (params : Params)
      → find (q ∷ qs) (node v false name false cs) params
        ≡ find qs (or_empty (get_child q cs)) params
  unfolding find
  find-plain q qs v name cs params = elim (Option-cases (get_child q cs)) [
    | inl missing ↦ rw (missing, find) (sym (find-empty qs params))
    | inr (n, there) ↦ rw (there, find)
  ]

  end-end :
      (h : Handler) (v : Option Handler) (name : Part) (cs : Children Handler) (params : Params)
      → find [] (insert [] h (node v false name false cs)) params ≡ (some h, params)
  unfolding insert find
  end-end h v name cs params = refl

  end-more :
      (q : Part) (qs : List Part) (h : Handler) (v : Option Handler) (name : Part)
      (cs : Children Handler) (params : Params)
      → find (q ∷ qs) (insert [] h (node v false name false cs)) params
        ≡ find (q ∷ qs) (node v false name false cs) params
  unfolding insert
  end-more q qs h v name cs params =
      find-plain q qs (some h) name cs params ∙ sym (find-plain q qs v name cs params)

  same_value :
      (v : Option Handler) (name : Part) (cs ds : Children Handler) (params : Params)
      → find [] (node v false name false cs) params ≡ find [] (node v false name false ds) params
  unfolding find
  same_value none name cs ds params = refl
  same_value (some h) name cs ds params = refl

  -- In a tree of such routes, a route put in has its handler and all others have theirs.
  pub find-insert_literal :
      (ps qs : List Part) (h : Handler) (n : Node Handler) (params : Params)
      → IsLiteral ps
      → Plain n
      → find qs (insert ps h n) params
        ≡ (if same_route ps qs then (some h, params) else find qs n params)
  unfolding same_route
  find-insert_literal [] [] h _ params lit (plain v name cs pcs) = end-end h v name cs params
  find-insert_literal [] (q ∷ qs) h _ params lit (plain v name cs pcs) =
      end-more q qs h v name cs params
  find-insert_literal (p ∷ ps) [] h _ params lit (plain v name cs pcs) =
      ap (λ t. find [] t params) (insert-literal p ps h v false name false cs lit.0 lit.1)
      ∙ same_value v name (set_child p (insert ps h (or_empty (get_child p cs))) cs) cs params
  find-insert_literal (p ∷ ps) (q ∷ qs) h _ params lit (plain v name cs pcs) =
      let m = insert ps h (or_empty (get_child p cs)) in
      ap (λ t. find (q ∷ qs) t params) (insert-literal p ps h v false name false cs lit.0 lit.1)
      ∙ find-plain q qs v name (set_child p m cs) params
      ∙ ap (λ o. find qs (or_empty o) params) (get_child-set_child p q m cs)
      ∙ elim (Bool-cases (same p q)) [
        | inl hit ↦
            let e : p ≡ q = (same_iff p q).0 hit in
            rw hit (
              find-insert_literal ps qs h (or_empty (get_child p cs)) params lit.2
                (or_empty-Plain p cs pcs)
              ∙ ap (λ t. if same_route ps qs then (some h, params) else t)
                  (ap (λ r. find qs (or_empty (get_child r cs)) params) e
                    ∙ sym (find-plain q qs v name cs params)))
        | inr miss ↦ rw miss (sym (find-plain q qs v name cs params))
      ]
