-- ===== src/Index/Fuel.antt =====
-- The fuel of `ast.walk`.
use openvair_rde_linter.Base.{
  ℕ, zero, suc, ◌+◌, ◌≤◌, ◌≡◌, refl, sym, ap, ◌∙◌, List, [], ◌∷◌, ◌++◌, arith, length,
}
use openvair_rde_linter.Ast.{Stmt, Stmts, statements, children, size_all, walk_queue, walk}
use openvair_rde_linter.Index.Walked.{total, total-append, total-statements, size-children}

empty_queue : (fuel : ℕ) → walk_queue fuel [] ≡ []
unfolding walk_queue
empty_queue zero = refl
empty_queue (suc fuel) = refl

suc_first : (a b : ℕ) → suc a + b ≡ suc (a + b)
suc_first a b = omega arith

-- The queue is empty in the end, whatever fuel is left.
walk_queue-more :
    (fuel more : ℕ) (todo : List Stmt)
    → total todo ≤ fuel
    → walk_queue (fuel + more) todo ≡ walk_queue fuel todo
unfolding walk_queue
walk_queue-more fuel more [] h = empty_queue (fuel + more) ∙ sym (empty_queue fuel)
walk_queue-more zero more (s ∷ todo) h = absurd (omega (arith, size-children s))
walk_queue-more (suc fuel) more (s ∷ todo) h =
    ap (λ n. walk_queue n (s ∷ todo)) (suc_first fuel more)
    ∙ ap (λ rest. s ∷ rest)
        (walk_queue-more fuel more (todo ++ children s)
          (omega (arith, size-children s, total-append todo (children s))))

length-walk_queue :
    (fuel : ℕ) (todo : List Stmt) → total todo ≤ fuel → length (walk_queue fuel todo) ≡ total todo
unfolding walk_queue
length-walk_queue zero [] h = refl
length-walk_queue zero (s ∷ todo) h = absurd (omega (arith, size-children s))
length-walk_queue (suc fuel) [] h = refl
length-walk_queue (suc fuel) (s ∷ todo) h = omega (
  arith,
  size-children s,
  total-append todo (children s),
  length-walk_queue fuel (todo ++ children s)
      (omega (arith, size-children s, total-append todo (children s))),
)

-- `walk` comes to its end: with any more fuel it takes the same nodes off its queue, and it takes
-- exactly as many as the tree has statements.
pub walk_ends :
    (tree : Stmts) (more : ℕ)
    → (walk_queue (size_all tree + more) (statements tree) ≡ walk tree)
      × (length (walk tree) ≡ size_all tree)
unfolding walk
walk_ends tree more = (
  walk_queue-more (size_all tree) more (statements tree) (omega (arith, total-statements tree)),
  length-walk_queue (size_all tree) (statements tree) (omega (arith, total-statements tree))
      ∙ total-statements tree,
)
