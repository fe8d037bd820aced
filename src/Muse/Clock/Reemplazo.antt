-- ===== src/Muse/Clock/Reemplazo.antt =====
-- `dame_nro_frame_reemplazado` from the programs on.
use tp_sistemas_operativos.Base.{ℕ, zero, suc, ◌+◌, ◌<◌, ◌≡◌, some, List}
use tp_sistemas_operativos.Commons.{Ref, Lists}
use tp_sistemas_operativos.Muse.State.{Program, Muse}

module _ ⦃c : Lists⦄ where
  open c use {list_get, list_size, list_add_all}

  -- The segments of the programs with the numbers `i`, …, `n` of them, behind those of a list.
  abbrev pub reunidos : (ℕ → Program) → ℕ → ℕ → List Ref → List Ref
  reunidos prog i zero lista = lista
  reunidos prog i (suc n) lista =
      reunidos prog (i + 1) n (list_add_all lista (prog i).segment_table)

  -- The programs of the list are `prog`.
  abbrev pub Programas : (ℕ → Program) → Muse → Type 0
  Programas prog s =
      (i : ℕ)
      → i < list_size s.program_list
      → s.programs (list_get s.program_list i) ≡ some (prog i)
