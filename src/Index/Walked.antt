-- ===== src/Index/Walked.antt =====
-- The queue of `ast.walk` against the statements of the tree.
use openvair_rde_linter.Base.{
  ℕ, zero, suc, ◌+◌, ◌≤◌, Bool, false, ◌||◌, ◌≡◌, refl, List, [], ◌∷◌, ◌++◌, arith, ◌∙◌,
}
use openvair_rde_linter.Ast.{
  Stmt, Stmts, function, class_def, assign, block, simple, empty, then, statements, children, size,
  size_all, walk_queue, walk,
}
use openvair_rde_linter.Index.Declares.{somewhere, somewhere_in, any}

-- the statements that are left to take, with those below them
abbrev pub total : List Stmt → ℕ
total [] = 0
total (s ∷ rest) = size s + total rest

pub total-append : (xs ys : List Stmt) → total (xs ++ ys) ≡ total xs + total ys
total-append [] ys = omega arith
total-append (x ∷ xs) ys = omega (arith, total-append xs ys)

pub total-statements : (body : Stmts) → total (statements body) ≡ size_all body
unfolding size_all
total-statements empty = refl
total-statements (then s rest) = omega (arith, total-statements rest)

-- A statement takes one step of the queue, and its children the rest.
pub size-children : (s : Stmt) → size s ≡ suc (total (children s))
unfolding size
size-children (function f body) = omega (arith, total-statements body)
size-children (class_def name body) = omega (arith, total-statements body)
size-children (block body) = omega (arith, total-statements body)
size-children (assign targets value) = refl
size-children simple = refl

module _ (p : Stmt → Bool) where
  abbrev anywhere : List Stmt → Bool
  anywhere [] = false
  anywhere (s ∷ rest) = somewhere p s || anywhere rest

  anywhere-append : (xs ys : List Stmt) → anywhere (xs ++ ys) ≡ (anywhere xs || anywhere ys)
  anywhere-append [] ys = refl
  anywhere-append (x ∷ xs) ys = ground (arith, anywhere-append xs ys)

  anywhere-statements : (body : Stmts) → anywhere (statements body) ≡ somewhere_in p body
  unfolding somewhere
  anywhere-statements empty = refl
  anywhere-statements (then s rest) = ground (arith, anywhere-statements rest)

  somewhere-children : (s : Stmt) → somewhere p s ≡ (p s || anywhere (children s))
  unfolding somewhere
  somewhere-children (function f body) = ground (arith, anywhere-statements body)
  somewhere-children (class_def name body) = ground (arith, anywhere-statements body)
  somewhere-children (block body) = ground (arith, anywhere-statements body)
  somewhere-children (assign targets value) = ground arith
  somewhere-children simple = ground arith

  any-walk_queue :
      (fuel : ℕ) (todo : List Stmt)
      → total todo ≤ fuel
      → any p (walk_queue fuel todo) ≡ anywhere todo
  unfolding walk_queue any
  any-walk_queue zero [] h = refl
  any-walk_queue zero (s ∷ todo) h = absurd (omega (arith, size-children s))
  any-walk_queue (suc fuel) [] h = refl
  any-walk_queue (suc fuel) (s ∷ todo) h = ground (
    arith,
    any-walk_queue fuel (todo ++ children s)
        (omega (arith, size-children s, total-append todo (children s))),
    anywhere-append todo (children s),
    somewhere-children s,
  )

  -- For any test on statements and any tree, some node that `walk` takes off its queue passes the
  -- test exactly if some statement of the tree does, at whatever depth.
  pub any-walk : (tree : Stmts) → any p (walk tree) ≡ somewhere_in p tree
  unfolding walk
  any-walk tree =
      any-walk_queue (size_all tree) (statements tree) (omega (arith, total-statements tree))
      ∙ anywhere-statements tree
