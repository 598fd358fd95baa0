-- ===== src/Ast.antt =====
-- The nodes of Python's `ast` that the linter tells apart. `other` and `simple` are the rest.
use openvair_rde_linter.Base.{ℕ, suc, ◌+◌, String, Option, List, [], ◌∷◌, ◌++◌}

-- `ast.Constant.value`
pub data Constant : Type 0 where
  none_value ellipsis : Constant
  str : String → Constant
  other_value : String → Constant

pub data Operator : Type 0 where
  bit_or : Operator
  other_operator : String → Operator

mutual
  pub data Expr : Type 0 where
    name : String → Expr
    attribute : Expr → String → Expr
    call : Expr → Exprs → Keywords → Expr
    constant : Constant → Expr
    subscript : Expr → Expr → Expr
    bin_op : Expr → Operator → Expr → Expr
    other : String → Expr

  pub data Exprs : Type 0 where
    nil : Exprs
    cons : Expr → Exprs → Exprs

  -- the keyword arguments of a call; `**mapping` has no name
  pub data Keywords : Type 0 where
    end : Keywords
    keyword : Option String → Expr → Keywords → Keywords

-- `ast.arg`
pub record Arg : Type 0 where
  pub arg : String
  pub annotation : Option Expr

-- `ast.arguments`
pub record Arguments : Type 0 where
  pub posonlyargs : List Arg
  pub args : List Arg
  pub defaults : List Expr
  pub kwonlyargs : List Arg
  pub kw_defaults : List (Option Expr)

-- the fields of `ast.FunctionDef` and of `ast.AsyncFunctionDef`, which the linter never tells apart
pub record Function : Type 0 where
  pub name : String
  pub args : Arguments
  pub decorator_list : List Expr

mutual
  -- `block` is any other node with statements below it, such as `if`, `try` or a handler.
  pub data Stmt : Type 0 where
    function : Function → Stmts → Stmt
    class_def : String → Stmts → Stmt
    assign : List Expr → Expr → Stmt
    block : Stmts → Stmt
    simple : Stmt

  pub data Stmts : Type 0 where
    empty : Stmts
    then : Stmt → Stmts → Stmts

abbrev pub statements : Stmts → List Stmt
statements empty = []
statements (then s rest) = s ∷ statements rest

-- `ast.iter_child_nodes`, of those that are statements
abbrev pub children : Stmt → List Stmt
children (function _ body) = statements body
children (class_def _ body) = statements body
children (block body) = statements body
children (assign _ _) = []
children simple = []

-- the number of statements in a tree
unfoldable mutual
  pub size : Stmt → ℕ
  size (function _ body) = suc (size_all body)
  size (class_def _ body) = suc (size_all body)
  size (block body) = suc (size_all body)
  size (assign _ _) = 1
  size simple = 1

  pub size_all : Stmts → ℕ
  size_all empty = 0
  size_all (then s rest) = size s + size_all rest

-- `ast.walk`: a queue, breadth first; `fuel` bounds the nodes that are taken off it.
unfoldable pub walk_queue : ℕ → List Stmt → List Stmt
walk_queue ℕ.zero todo = []
walk_queue (suc fuel) [] = []
walk_queue (suc fuel) (node ∷ todo) = node ∷ walk_queue fuel (todo ++ children node)

-- The statements of a module. Its size is enough fuel, since each is taken off once.
unfoldable pub walk : Stmts → List Stmt
unfolding size walk_queue
walk body = walk_queue (size_all body) (statements body)
