-- ===== src/Ejemplos/Maquina.antt =====
-- A concrete machine: its floating point numbers are numbers of seconds, its clock counts its
-- readings, and its lists are the reference functions.
use text.Mathlib.Text.{◌==◌ as str_eq}
use tp_sistemas_operativos.Base.{
  ℕ, ◌+◌, ◌-◌, ◌*◌, ◌/◌, refl, [], ◌∷◌, ◌++◌, length, get_or, remove_at, find_or, remove_first,
  keep, is_empty, ltb, ◌==◌,
}
use tp_sistemas_operativos.Base.Int.{pos}
use tp_sistemas_operativos.Commons.{null, Lists, Machine}

abbrev pub listas : Lists
listas = record {
  list_add = λ l r. l ++ r ∷ [];
  list_add_all = λ l k. l ++ k;
  list_get = λ l i. get_or l i null;
  list_size = λ l. length l;
  list_is_empty = λ l. is_empty l;
  list_find = λ l p. find_or l p null;
  list_filter = λ l p. keep l p;
  list_remove = λ l i. remove_at l i;
  list_remove_by_condition = λ l p. remove_first l p;
  list_sort = λ l _. l;
  add_appends = λ l r. refl;
  add_all_appends = λ l k. refl;
  get_reads = λ l i. refl;
  size_counts = λ l. refl;
  is_empty_tests = λ l. refl;
  find_first = λ l p. refl;
  filter_keeps = λ l p. refl;
  remove_drops = λ l i. refl;
  remove_first_drops = λ l p. refl;
}

instance abbrev pub maquina : Machine
maquina = record {
  Double = ℕ;
  zero_d = 0;
  one_d = 1;
  hundred_d = 100;
  add_d = ◌+◌;
  sub_d = ◌-◌;
  mul_d = ◌*◌;
  div_d = ◌/◌;
  lt_d = ltb;
  eq_d = ◌==◌;
  to_int = pos;
  gettimeofday = λ n. n;
  close = λ socket. pos 0;
  atoi = λ s. pos 0;
  string_equals_ignore_case = str_eq;
  lists = listas;
}
