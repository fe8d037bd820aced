-- ===== src/Commons.antt =====
-- What the planner takes from outside the repository, as a parameter: the lists of the commons
-- library, the machine's floating point numbers, the clock and
-- `close` of the operating system, `atoi`, and the text comparison of the commons library.
use tp_sistemas_operativos.Base.{
  ℕ, ◌≡◌, Bool, List, [], ◌∷◌, ◌++◌, length, get_or, remove_at, find_or, remove_first, keep,
  is_empty,
}
use tp_sistemas_operativos.Base.Int.{ℤ}
use Prim.Native.String.{String}

-- A pointer. `null` points at nothing.
abbrev pub Ref : Type 0
Ref = ℕ

abbrev pub null : Ref
null = 0

-- commons/collections/list.h, for lists of pointers: each function with what its documentation
-- says that it returns.
pub record Lists : Type 0 where
  pub list_add : List Ref → Ref → List Ref
  pub list_get : List Ref → ℕ → Ref
  pub list_size : List Ref → ℕ
  pub list_is_empty : List Ref → Bool
  pub list_find : List Ref → (Ref → Bool) → Ref
  pub list_filter : List Ref → (Ref → Bool) → List Ref
  pub list_remove : List Ref → ℕ → List Ref
  pub list_remove_by_condition : List Ref → (Ref → Bool) → List Ref
  pub list_sort : List Ref → (Ref → Ref → Bool) → List Ref
  pub list_add_all : List Ref → List Ref → List Ref
  pub add_appends : (l : List Ref) (r : Ref) → list_add l r ≡ l ++ r ∷ []
  pub add_all_appends : (l k : List Ref) → list_add_all l k ≡ l ++ k
  pub get_reads : (l : List Ref) (i : ℕ) → list_get l i ≡ get_or l i null
  pub size_counts : (l : List Ref) → list_size l ≡ length l
  pub is_empty_tests : (l : List Ref) → list_is_empty l ≡ is_empty l
  pub find_first : (l : List Ref) (p : Ref → Bool) → list_find l p ≡ find_or l p null
  pub filter_keeps : (l : List Ref) (p : Ref → Bool) → list_filter l p ≡ keep l p
  pub remove_drops : (l : List Ref) (i : ℕ) → list_remove l i ≡ remove_at l i
  pub remove_first_drops :
      (l : List Ref) (p : Ref → Bool) → list_remove_by_condition l p ≡ remove_first l p

-- `double` and its operators, with no law assumed; the functions of the operating system.
pub record Machine : Type 1 where
  pub Double : Type 0
  pub zero_d : Double
  pub one_d : Double
  pub hundred_d : Double
  pub add_d : Double → Double → Double
  pub sub_d : Double → Double → Double
  pub mul_d : Double → Double → Double
  pub div_d : Double → Double → Double
  pub lt_d : Double → Double → Bool
  pub eq_d : Double → Double → Bool
  pub to_int : Double → ℤ
  -- What the n-th reading of the clock gives, in seconds.
  pub gettimeofday : ℕ → Double
  pub close : ℕ → ℤ
  pub atoi : String → ℤ
  pub string_equals_ignore_case : String → String → Bool
  pub lists : Lists
  pub open lists use *
