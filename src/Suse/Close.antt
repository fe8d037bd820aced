-- ===== src/Suse/Close.antt =====
-- `close_tid` of suse.c: a thread ends, or, with the main thread, its whole process.
use tp_sistemas_operativos.Base.{ℕ, ◌==◌, none, List, [], ◌∷◌, if◌then◌else◌}
use tp_sistemas_operativos.Base.Int.{ℤ, pos, ◌-ℤ◌}
use tp_sistemas_operativos.Commons.{Ref, null, Machine}
use tp_sistemas_operativos.Suse.State.{
  Estado, e_ready, e_execute, e_blocked, e_exit, e_new, mutex_new_queue, mutex_blocked_queue,
  mutex_multiprog, Process,
}
use tp_sistemas_operativos.Suse.Run.{
  Cmd, pure, gets, ◌>>=◌, ◌>>◌, set_process_list, set_actual_multiprog, load_thread, load_process,
  set_thread, set_process, update_process, lock, unlock, process_is, find_process, find_thread,
}
use tp_sistemas_operativos.Suse.Transitions.{
  nuevo_a_exit, bloqueado_a_exit, listo_a_exit, ejecucion_a_exit, nuevo_a_listo,
}
use tp_sistemas_operativos.Suse.Scheduler.{si_hay_lugar}
use tp_sistemas_operativos.Suse.Joins.{desjoinear}
use tp_sistemas_operativos.Suse.Metrics.{metricas}

module _ ⦃m : Machine⦄ where
  open m use {list_get, list_find, list_is_empty, list_remove_by_condition, close}

  unfoldable pub obtener_ult_ready_fifo : Cmd (Unit {0})
  obtener_ult_ready_fifo = do
    thread ← gets λ s. list_get s.new_queue 0
    if thread == null then pure tt else do
      t ← load_thread thread
      process ← find_process t.proceso_id
      p ← load_process process
      nuevo_a_listo thread p.process_id

  unfoldable pub bajar_multiprog : Cmd (Unit {0})
  bajar_multiprog = set_actual_multiprog λ n. n -ℤ pos 1

  -- The `switch` of `close_tid`.
  unfoldable pub cerrar_en : Estado → Ref → Ref → ℕ → Cmd (Unit {0})
  unfolding bajar_multiprog obtener_ult_ready_fifo
  cerrar_en e_new thread process socket = do
    lock mutex_new_queue
    nuevo_a_exit thread socket
    unlock mutex_new_queue
  cerrar_en e_blocked thread process socket = do
    lock mutex_blocked_queue
    lock mutex_multiprog
    bajar_multiprog
    bloqueado_a_exit thread socket
    si_hay_lugar obtener_ult_ready_fifo
    unlock mutex_multiprog
    unlock mutex_blocked_queue
  cerrar_en e_ready thread process socket = do
    lock mutex_multiprog
    bajar_multiprog
    listo_a_exit thread socket
    si_hay_lugar obtener_ult_ready_fifo
    unlock mutex_multiprog
  cerrar_en e_execute thread process socket = do
    lock mutex_multiprog
    update_process process λ p. record p { exec_thread = null }
    ejecucion_a_exit thread socket
    bajar_multiprog
    si_hay_lugar obtener_ult_ready_fifo
    unlock mutex_multiprog
  cerrar_en e_exit thread process socket = pure tt

  -- `list_destroy_and_destroy_elements(process->ULTS, destroy_ULTsList)`: a thread that is freed
  -- twice is a fault.
  unfoldable pub liberar_hilos : List Ref → Cmd (Unit {0})
  liberar_hilos [] = pure tt
  liberar_hilos (thread ∷ resto) = do
    load_thread thread
    set_thread thread none
    liberar_hilos resto

  -- The main thread ends: its process leaves the list and is freed, with its threads.
  unfoldable pub cerrar_proceso : Process → ℕ → Cmd ℤ
  unfolding liberar_hilos
  cerrar_proceso p socket_actual = do
    liberar_hilos p.ults
    es_el_proceso ← gets λ s. process_is s (λ q. q.process_id == socket_actual)
    quitado ← gets λ s. list_find s.process es_el_proceso
    set_process_list λ s. list_remove_by_condition s.process es_el_proceso
    set_process quitado none
    pure (close socket_actual)

  unfoldable pub cerrar_hilo : Ref → Ref → ℕ → Cmd ℤ
  unfolding cerrar_en
  cerrar_hilo process thread socket_actual = do
    t ← load_thread thread
    if list_is_empty t.joined_by then pure tt else desjoinear thread
    t' ← load_thread thread
    cerrar_en t'.estado thread process socket_actual
    metricas
    pure (pos 1)

  unfoldable pub close_tid : ℕ → ℕ → Cmd ℤ
  unfolding cerrar_proceso cerrar_hilo
  close_tid tid socket_actual = do
    process ← find_process socket_actual
    p ← load_process process
    thread ← find_thread p tid
    t ← load_thread thread
    if t.tid == 0 then cerrar_proceso p socket_actual else cerrar_hilo process thread socket_actual
