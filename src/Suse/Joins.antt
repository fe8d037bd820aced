-- ===== src/Suse/Joins.antt =====
-- `join` of suse.c, and the release of the threads that wait for one that ends.
use tp_sistemas_operativos.Base.{ℕ, zero, suc, ◌+◌, ◌==◌, ◌||◌, if◌then◌else◌}
use tp_sistemas_operativos.Base.Int.{ℤ, pos}
use tp_sistemas_operativos.Commons.{Ref, null, Machine}
use tp_sistemas_operativos.Suse.State.{e_new, mutex_multiprog, mutex_new_queue}
use tp_sistemas_operativos.Suse.Run.{
  Cmd, pure, gets, ◌>>=◌, ◌>>◌, set_new_queue, load_thread, load_process, update_thread, lock,
  unlock, thread_is, find_process, find_thread,
}
use tp_sistemas_operativos.Suse.Transitions.{bloqueado_a_listo, ejecucion_a_bloqueado}
use tp_sistemas_operativos.Suse.Scheduler.{validar_grado_multiprogramacion}

module _ ⦃m : Machine⦄ where
  open m use {list_add, list_get, list_size, list_is_empty, list_remove_by_condition}

  unfoldable pub join : ℕ → ℕ → Cmd ℤ
  join socket tid = do
    process ← find_process socket
    p ← load_process process
    thread_joined ← find_thread p tid
    if (thread_joined == null) || (p.exec_thread == null) then pure (pos 0) else do
      update_thread p.exec_thread λ t. record t { join_to = list_add t.join_to thread_joined }
      update_thread thread_joined λ t. record t { joined_by = list_add t.joined_by p.exec_thread }
      ejecucion_a_bloqueado p.exec_thread socket
      pure (pos 0)

  -- The joiner has no thread left to wait for: it is ready if the degree of multiprogramming
  -- allows it, and new again if not.
  unfoldable pub joiner_a_listo : Ref → Cmd (Unit {0})
  joiner_a_listo thread_joiner = do
    t ← load_thread thread_joiner
    process ← find_process t.proceso_id
    bloqueado_a_listo thread_joiner process

  unfoldable pub joiner_a_nuevo : Ref → Cmd (Unit {0})
  joiner_a_nuevo thread_joiner = do
    update_thread thread_joiner λ t. record t { estado = e_new }
    lock mutex_new_queue
    set_new_queue λ s. list_add s.new_queue thread_joiner
    unlock mutex_new_queue

  unfoldable pub liberar_joiner : Ref → Cmd (Unit {0})
  unfolding joiner_a_listo joiner_a_nuevo
  liberar_joiner thread_joiner = do
    lock mutex_multiprog
    hay_lugar ← validar_grado_multiprogramacion
    if hay_lugar then joiner_a_listo thread_joiner else joiner_a_nuevo thread_joiner
    unlock mutex_multiprog

  unfoldable pub desjoinear_hilo : Ref → Ref → Cmd (Unit {0})
  desjoinear_hilo thread_joineado thread_joiner = do
    u ← load_thread thread_joineado
    es_el_hilo ← gets λ s. thread_is s (λ t. t.tid == u.tid)
    update_thread thread_joiner
        λ t. record t { join_to = list_remove_by_condition t.join_to es_el_hilo }
    joiner ← load_thread thread_joiner
    if list_is_empty joiner.join_to then liberar_joiner thread_joiner else pure tt

  -- The rounds `i`, …, of the `for` of `desjoinear`, `quedan` in number.
  unfoldable pub desjoinear_desde : Ref → ℕ → ℕ → Cmd (Unit {0})
  desjoinear_desde thread_joineado i zero = pure tt
  desjoinear_desde thread_joineado i (suc quedan) = do
    t ← load_thread thread_joineado
    desjoinear_hilo thread_joineado (list_get t.joined_by i)
    desjoinear_desde thread_joineado (i + 1) quedan

  unfoldable pub desjoinear : Ref → Cmd (Unit {0})
  desjoinear thread_joineado = do
    t ← load_thread thread_joineado
    desjoinear_desde thread_joineado 0 (list_size t.joined_by)
