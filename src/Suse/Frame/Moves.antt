-- ===== src/Suse/Frame/Moves.antt =====
-- The transitions of a thread keep a stable condition.
use tp_sistemas_operativos.Base.{ℕ}
use tp_sistemas_operativos.Commons.{Ref, Machine}
use tp_sistemas_operativos.Suse.State.{Estado, e_ready, e_execute, e_blocked, e_exit, e_new, Suse}
use tp_sistemas_operativos.Suse.Logic.{Keeps}
use tp_sistemas_operativos.Suse.Frame.Primitives.{Stable, stable_rules}
use tp_sistemas_operativos.Suse.Transitions.{
  remover_ult_nuevo, remover_ult_bloqueado, remover_ult_exec, remover_ult_listo, eliminar_de,
  eliminar_ult_cola_actual, pasar_a_exit, find_process_locked, ejecucion_a_exit, bloqueado_a_exit,
  listo_a_exit, nuevo_a_exit, listo_a_ejecucion, ejecucion_a_listo, bloqueado_a_listo, medir_rafaga,
  cerrar_rafaga, ejecucion_a_bloqueado,
}

module _ ⦃m : Machine⦄ {I : Suse → Type 0} (stable : Stable I) where
  eliminar_de-Keeps : (e : Estado) (r p : Ref) → Keeps I (eliminar_de e r p)
  unfolding eliminar_de remover_ult_nuevo remover_ult_bloqueado remover_ult_exec remover_ult_listo
  eliminar_de-Keeps e_ready r p = search stable_rules depth 20
  eliminar_de-Keeps e_new r p = search stable_rules depth 20
  eliminar_de-Keeps e_execute r p = search stable_rules depth 20
  eliminar_de-Keeps e_blocked r p = search stable_rules depth 20
  eliminar_de-Keeps e_exit r p = search stable_rules depth 20

  pub eliminar_ult_cola_actual-Keeps : (r p : Ref) → Keeps I (eliminar_ult_cola_actual r p)
  unfolding eliminar_ult_cola_actual
  eliminar_ult_cola_actual-Keeps r p = search (stable_rules, eliminar_de-Keeps) depth 20

  pasar_a_exit-Keeps : (r p : Ref) → Keeps I (pasar_a_exit r p)
  unfolding pasar_a_exit
  pasar_a_exit-Keeps r p = search stable_rules depth 20

  pub find_process_locked-Keeps : (id : ℕ) → Keeps I (find_process_locked id)
  unfolding find_process_locked
  find_process_locked-Keeps id = search stable_rules depth 20

ruleset move_rules =
    (stable_rules, eliminar_ult_cola_actual-Keeps, pasar_a_exit-Keeps, find_process_locked-Keeps)

module _ ⦃m : Machine⦄ {I : Suse → Type 0} (stable : Stable I) where
  remover_ult_exec-Keeps : (p : Ref) → Keeps I (remover_ult_exec p)
  unfolding remover_ult_exec
  remover_ult_exec-Keeps p = search stable_rules

  pub ejecucion_a_exit-Keeps : (r : Ref) (id : ℕ) → Keeps I (ejecucion_a_exit r id)
  unfolding ejecucion_a_exit
  ejecucion_a_exit-Keeps r id = search (move_rules, remover_ult_exec-Keeps) depth 20

  pub bloqueado_a_exit-Keeps : (r : Ref) (id : ℕ) → Keeps I (bloqueado_a_exit r id)
  unfolding bloqueado_a_exit
  bloqueado_a_exit-Keeps r id = search move_rules depth 20

  pub listo_a_exit-Keeps : (r : Ref) (id : ℕ) → Keeps I (listo_a_exit r id)
  unfolding listo_a_exit
  listo_a_exit-Keeps r id = search move_rules depth 20

  pub nuevo_a_exit-Keeps : (r : Ref) (id : ℕ) → Keeps I (nuevo_a_exit r id)
  unfolding nuevo_a_exit
  nuevo_a_exit-Keeps r id = search move_rules depth 20

  pub listo_a_ejecucion-Keeps : (r : Ref) (id : ℕ) → Keeps I (listo_a_ejecucion r id)
  unfolding listo_a_ejecucion
  listo_a_ejecucion-Keeps r id = search move_rules depth 20

  pub ejecucion_a_listo-Keeps : (r : Ref) (id : ℕ) → Keeps I (ejecucion_a_listo r id)
  unfolding ejecucion_a_listo
  ejecucion_a_listo-Keeps r id = search (move_rules, remover_ult_exec-Keeps) depth 20

  pub bloqueado_a_listo-Keeps : (r p : Ref) → Keeps I (bloqueado_a_listo r p)
  unfolding bloqueado_a_listo
  bloqueado_a_listo-Keeps r p = search move_rules depth 20

  pub cerrar_rafaga-Keeps : (r : Ref) → Keeps I (cerrar_rafaga r)
  unfolding cerrar_rafaga medir_rafaga
  cerrar_rafaga-Keeps r = search move_rules depth 20

  pub ejecucion_a_bloqueado-Keeps : (r : Ref) (id : ℕ) → Keeps I (ejecucion_a_bloqueado r id)
  unfolding ejecucion_a_bloqueado
  ejecucion_a_bloqueado-Keeps r id =
      search (move_rules, cerrar_rafaga-Keeps, remover_ult_exec-Keeps) depth 20
