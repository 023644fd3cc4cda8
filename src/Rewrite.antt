-- ===== src/Rewrite.antt =====
-- Numba IR as the passes of numba_dppy/core/passes/rename_numpy_functions_pass.py see it, and the
-- table of the names that they rewrite.
pub mod Functions
pub mod Alike
pub mod Meaning
pub mod Entries
pub mod Renamed
pub mod Run
pub mod Ndarray
pub mod Bound
pub mod Cases
pub mod Steps
pub mod Calls
pub mod Methods
mod Tests
use numba_dppy.Prelude.{Bool, List, Option, String, [], false, none, some, str_eq, true, ℕ, ◌∷◌}
use numba_dppy.Result.{Result, err, external_error, key_error, ok}
use numba_dppy.Access.{contains}

-- The right side of an assignment. Variables are given by their names.
pub data Value : Type 0 where
  -- `ir.Global`, by the name of the module that it stands for, if it stands for one
  global_value : Option String → Value
  -- `ir.Expr` of op "getattr": the variable and the attribute
  getattr_expr : String → String → Value
  -- `ir.Expr` of op "call": its identity, the function, the arguments, and the keywords
  call_expr : ℕ → String → List String → List (String × String) → Value
  -- an expression of another op, and what is no expression
  other_expr other_value : ℕ → Value

pub data Stmt : Type 0 where
  assign : String → Value → Stmt
  other_stmt : ℕ → Stmt

-- For each name: the names of the modules that it is taken from, and the new name.
abbrev pub NameMap : Type 0
NameMap = List (String × (List String × String))

pub rewrite_function_name_map : NameMap
rewrite_function_name_map =
    ("all", ("numpy" ∷ [], "all"))
    ∷ ("amax", ("numpy" ∷ [], "amax"))
    ∷ ("amin", ("numpy" ∷ [], "amin"))
    ∷ ("argmax", ("numpy" ∷ [], "argmax"))
    ∷ ("argmin", ("numpy" ∷ [], "argmin"))
    ∷ ("argsort", ("numpy" ∷ [], "argsort"))
    ∷ ("cov", ("numpy" ∷ [], "cov"))
    ∷ ("diagonal", ("numpy" ∷ [], "diagonal"))
    ∷ ("max", ("numpy" ∷ [], "max"))
    ∷ ("mean", ("numpy" ∷ [], "mean"))
    ∷ ("median", ("numpy" ∷ [], "median"))
    ∷ ("min", ("numpy" ∷ [], "min"))
    ∷ ("partition", ("numpy" ∷ [], "partition"))
    ∷ ("repeat", ("numpy" ∷ [], "repeat"))
    ∷ ("trace", ("numpy" ∷ [], "trace"))
    ∷ ("vdot", ("numpy" ∷ [], "vdot"))
    ∷ ("beta", ("random" ∷ [], "beta"))
    ∷ ("binomial", ("random" ∷ [], "binomial"))
    ∷ ("chisquare", ("random" ∷ [], "chisquare"))
    ∷ ("exponential", ("random" ∷ [], "exponential"))
    ∷ ("gamma", ("random" ∷ [], "gamma"))
    ∷ ("geometric", ("random" ∷ [], "geometric"))
    ∷ ("gumbel", ("random" ∷ [], "gumbel"))
    ∷ ("hypergeometric", ("random" ∷ [], "hypergeometric"))
    ∷ ("laplace", ("random" ∷ [], "laplace"))
    ∷ ("lognormal", ("random" ∷ [], "lognormal"))
    ∷ ("multinomial", ("random" ∷ [], "multinomial"))
    ∷ ("multivariate_normal", ("random" ∷ [], "multivariate_normal"))
    ∷ ("negative_binomial", ("random" ∷ [], "negative_binomial"))
    ∷ ("normal", ("random" ∷ [], "normal"))
    ∷ ("poisson", ("random" ∷ [], "poisson"))
    ∷ ("rand", ("random" ∷ [], "rand"))
    ∷ ("randint", ("random" ∷ [], "randint"))
    ∷ ("random_integers", ("random" ∷ [], "random_integers"))
    ∷ ("random_sample", ("random" ∷ [], "random_sample"))
    ∷ ("random", ("random" ∷ [], "random"))
    ∷ ("ranf", ("random" ∷ [], "ranf"))
    ∷ ("rayleigh", ("random" ∷ [], "rayleigh"))
    ∷ ("sample", ("random" ∷ [], "sample"))
    ∷ ("standard_cauchy", ("random" ∷ [], "standard_cauchy"))
    ∷ ("standard_exponential", ("random" ∷ [], "standard_exponential"))
    ∷ ("standard_gamma", ("random" ∷ [], "standard_gamma"))
    ∷ ("standard_normal", ("random" ∷ [], "standard_normal"))
    ∷ ("uniform", ("random" ∷ [], "uniform"))
    ∷ ("weibull", ("random" ∷ [], "weibull"))
    ∷ ("cholesky", ("linalg" ∷ [], "cholesky"))
    ∷ ("det", ("linalg" ∷ [], "det"))
    ∷ ("dot", ("numpy" ∷ [], "dot"))
    ∷ ("eig", ("linalg" ∷ [], "eig"))
    ∷ ("eigvals", ("linalg" ∷ [], "eigvals"))
    ∷ ("matmul", ("numpy" ∷ [], "matmul"))
    ∷ ("matrix_power", ("linalg" ∷ [], "matrix_power"))
    ∷ ("matrix_rank", ("linalg" ∷ [], "matrix_rank"))
    ∷ ("multi_dot", ("linalg" ∷ [], "multi_dot"))
    ∷ ("nanprod", ("numpy" ∷ [], "nanprod"))
    ∷ ("nansum", ("numpy" ∷ [], "nansum"))
    ∷ ("prod", ("numpy" ∷ [], "prod"))
    ∷ ("sum", ("numpy" ∷ [], "sum"))
    ∷ ("full", ("numpy" ∷ [], "full"))
    ∷ ("ones_like", ("numpy" ∷ [], "ones_like"))
    ∷ ("zeros_like", ("numpy" ∷ [], "zeros_like"))
    ∷ ("full_like", ("numpy" ∷ [], "full_like"))
    ∷ ("copy", ("numpy" ∷ [], "copy"))
    ∷ ("cumsum", ("numpy" ∷ [], "cumsum"))
    ∷ ("cumprod", ("numpy" ∷ [], "cumprod"))
    ∷ ("sort", ("numpy" ∷ [], "sort"))
    ∷ ("take", ("numpy" ∷ [], "take"))
    ∷ []

-- `block.find_variable_assignment(name).value`; `None` has no attribute `value`.
unfoldable pub find_variable_assignment : List Stmt → String → Result Value
find_variable_assignment [] name = err external_error
find_variable_assignment (other_stmt n ∷ body) name = find_variable_assignment body name
find_variable_assignment (assign target value ∷ body) name = elim (str_eq target name) [
  | true ↦ ok value
  | false ↦ find_variable_assignment body name
]

-- whether the variable stands for one of the modules; an expression that is no "getattr" has no `attr`
unfoldable pub is_module : List String → Value → Result Bool
is_module names (global_value (some name)) = ok (contains names name)
is_module names (global_value none) = err external_error
is_module names (getattr_expr value attr) = ok (contains names attr)
is_module names (call_expr id func args kws) = err key_error
is_module names (other_expr n) = err key_error
is_module names (other_value n) = ok false
