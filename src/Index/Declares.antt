-- ===== src/Index/Declares.antt =====
-- Which methods a source tree declares, by recursion on the tree: what the index is measured by.
use openvair_rde_linter.Base.{
  String, Bool, false, ◌||◌, ◌&&◌, List, [], ◌∷◌, contains, ◌==◌, string_eq,
}
use openvair_rde_linter.Ast.{
  Stmt, Stmts, function, class_def, assign, block, simple, empty, then, statements,
}
use openvair_rde_linter.Index.{public_functions}

-- The statement is a class of that name with a public method of that name in its body.
unfoldable pub declares_here : String → String → Stmt → Bool
unfolding public_functions
declares_here c m (class_def name body) =
    c == name && contains (public_functions (statements body)) m
declares_here c m _ = false

module _ (p : Stmt → Bool) where
  unfoldable mutual
    -- The test passes at the statement or at one below it, at any depth.
    pub somewhere : Stmt → Bool
    somewhere (function f body) = p (function f body) || somewhere_in body
    somewhere (class_def name body) = p (class_def name body) || somewhere_in body
    somewhere (assign targets value) = p (assign targets value)
    somewhere (block body) = p (block body) || somewhere_in body
    somewhere simple = p simple

    pub somewhere_in : Stmts → Bool
    somewhere_in empty = false
    somewhere_in (then s rest) = somewhere s || somewhere_in rest

  unfoldable pub any : List Stmt → Bool
  any [] = false
  any (s ∷ rest) = p s || any rest

-- The tree declares the method: in a class at the top, or nested in another statement.
unfoldable pub declares : Stmts → String → String → Bool
unfolding somewhere_in
declares tree c m = somewhere_in (declares_here c m) tree
