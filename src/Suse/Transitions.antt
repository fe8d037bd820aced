-- ===== src/Suse/Transitions.antt =====
-- The functions of suse.c that move a thread from one state to another.
use tp_sistemas_operativos.Base.{ℕ, true, ◌&&◌, ◌==◌, if◌then◌else◌}
use tp_sistemas_operativos.Base.Int.{pos, ◌+ℤ◌}
use tp_sistemas_operativos.Commons.{Ref, null, Machine}
use tp_sistemas_operativos.Suse.State.{
  Estado, e_ready, e_execute, e_blocked, e_exit, e_new, mutex_new_queue, mutex_blocked_queue,
  mutex_exit_queue, mutex_process_list,
}
use tp_sistemas_operativos.Suse.Run.{
  Cmd, pure, gets, ◌>>=◌, ◌>>◌, set_new_queue, set_blocked_queue, set_exit_queue,
  set_actual_multiprog, load_thread, load_process, update_thread, update_process, update_semaphore,
  lock, unlock, get_time_today, thread_is, sem_post, sem_wait, find_process, find_thread,
}

module _ ⦃m : Machine⦄ where
  open m use {Double, zero_d, add_d, sub_d, lt_d, list_add, list_remove_by_condition}

  unfoldable pub remover_ult_nuevo : Ref → Cmd (Unit {0})
  remover_ult_nuevo ult = do
    lock mutex_new_queue
    u ← load_thread ult
    set_new_queue λ s.
        list_remove_by_condition s.new_queue
          (thread_is s (λ t. t.tid == u.tid && t.proceso_id == u.proceso_id))
    unlock mutex_new_queue

  unfoldable pub remover_ult_bloqueado : Ref → Cmd (Unit {0})
  remover_ult_bloqueado thread = do
    lock mutex_blocked_queue
    u ← load_thread thread
    set_blocked_queue λ s.
        list_remove_by_condition s.blocked_queue
          (thread_is s (λ t. t.tid == u.tid && t.proceso_id == u.proceso_id))
    unlock mutex_blocked_queue

  unfoldable pub remover_ult_exec : Ref → Cmd (Unit {0})
  remover_ult_exec process = update_process process λ p. record p { exec_thread = null }

  unfoldable pub remover_ult_listo : Ref → Ref → Cmd (Unit {0})
  remover_ult_listo thread process = do
    u ← load_thread thread
    es_el_hilo ← gets λ s. thread_is s (λ t. t.tid == u.tid)
    update_process process
        λ p. record p { ready_list = list_remove_by_condition p.ready_list es_el_hilo }

  -- The `switch` of `eliminar_ult_cola_actual`.
  unfoldable pub eliminar_de : Estado → Ref → Ref → Cmd (Unit {0})
  eliminar_de e_ready ult process = remover_ult_listo ult process
  eliminar_de e_new ult process = remover_ult_nuevo ult
  eliminar_de e_execute ult process = remover_ult_exec process
  eliminar_de e_blocked ult process = remover_ult_bloqueado ult
  eliminar_de e_exit ult process = pure tt

  unfoldable pub eliminar_ult_cola_actual : Ref → Ref → Cmd (Unit {0})
  eliminar_ult_cola_actual ult process = do u ← load_thread ult; eliminar_de u.estado ult process

  -- The tail that the four moves to `E_EXIT` share: out of `process->ULTS` by tid, into
  -- `exit_queue`.
  unfoldable pub pasar_a_exit : Ref → Ref → Cmd (Unit {0})
  pasar_a_exit thread process = do
    u ← load_thread thread
    es_el_hilo ← gets λ s. thread_is s (λ t. t.tid == u.tid)
    update_process process λ p. record p { ults = list_remove_by_condition p.ults es_el_hilo }
    update_thread thread λ t. record t { estado = e_exit }
    lock mutex_exit_queue
    set_exit_queue λ s. list_add s.exit_queue thread
    unlock mutex_exit_queue

  -- `list_find(configuracion_suse.process, …)` under `mutex_process_list`.
  unfoldable pub find_process_locked : ℕ → Cmd Ref
  find_process_locked id = do
    lock mutex_process_list
    process ← find_process id
    unlock mutex_process_list
    pure process

  unfoldable pub ejecucion_a_exit : Ref → ℕ → Cmd (Unit {0})
  ejecucion_a_exit thread socket = do
    process ← find_process_locked socket
    tiempo ← get_time_today
    update_thread thread λ t. record t {
      tiempo_de_cpu = add_d t.tiempo_de_cpu (sub_d tiempo t.tiempo_inicial_en_exec);
    }
    remover_ult_exec process
    pasar_a_exit thread process

  unfoldable pub bloqueado_a_exit : Ref → ℕ → Cmd (Unit {0})
  bloqueado_a_exit thread socket = do
    process ← find_process_locked socket
    eliminar_ult_cola_actual thread process
    pasar_a_exit thread process

  unfoldable pub listo_a_exit : Ref → ℕ → Cmd (Unit {0})
  listo_a_exit thread socket = do
    process ← find_process_locked socket
    tiempo ← get_time_today
    update_thread thread λ t. record t {
      tiempo_de_espera = add_d t.tiempo_de_espera (sub_d tiempo t.tiempo_inicial_en_ready);
    }
    eliminar_ult_cola_actual thread process
    pasar_a_exit thread process
    sem_wait process

  unfoldable pub nuevo_a_exit : Ref → ℕ → Cmd (Unit {0})
  nuevo_a_exit thread socket = do
    process ← find_process_locked socket
    eliminar_ult_cola_actual thread process
    pasar_a_exit thread process

  unfoldable pub listo_a_ejecucion : Ref → ℕ → Cmd (Unit {0})
  listo_a_ejecucion thread socket = do
    process ← find_process_locked socket
    tiempo ← get_time_today
    update_thread thread λ t. record t {
      tiempo_inicial_en_exec = tiempo;
      tiempo_de_espera = add_d t.tiempo_de_espera (sub_d tiempo t.tiempo_inicial_en_ready);
    }
    eliminar_ult_cola_actual thread process
    update_thread thread λ t. record t { estado = e_execute; ejecutado_desde_estimacion = true }
    update_process process λ p. record p { exec_thread = thread }

  unfoldable pub nuevo_a_ejecucion : Ref → ℕ → Cmd (Unit {0})
  nuevo_a_ejecucion thread socket = do
    aux ← get_time_today
    process ← find_process socket
    eliminar_ult_cola_actual thread process
    tiempo ← get_time_today
    update_thread thread λ t. record t {
      tiempo_inicial_en_exec = tiempo;
      duracion_rafaga = aux;
      estado = e_execute;
      ejecutado_desde_estimacion = true;
    }
    update_process process λ p. record p { exec_thread = thread }
    set_actual_multiprog λ n. n +ℤ pos 1

  unfoldable pub ejecucion_a_listo : Ref → ℕ → Cmd (Unit {0})
  ejecucion_a_listo thread socket = do
    process ← find_process socket
    tiempo ← get_time_today
    update_thread thread λ t. record t {
      tiempo_de_cpu = add_d t.tiempo_de_cpu (sub_d tiempo t.tiempo_inicial_en_exec);
      tiempo_inicial_en_ready = tiempo;
    }
    remover_ult_exec process
    update_thread thread λ t. record t { estado = e_ready }
    update_process process λ p. record p { ready_list = list_add p.ready_list thread }
    sem_post process

  unfoldable pub bloqueado_a_listo : Ref → Ref → Cmd (Unit {0})
  bloqueado_a_listo thread program = do
    tiempo ← get_time_today
    update_thread thread λ t. record t { tiempo_inicial_en_ready = tiempo }
    eliminar_ult_cola_actual thread program
    update_thread thread λ t. record t { estado = e_ready }
    update_process program λ p. record p { ready_list = list_add p.ready_list thread }
    sem_post program

  unfoldable pub medir_rafaga : Ref → Double → Cmd (Unit {0})
  medir_rafaga thread aux2 = do
    tiempo ← get_time_today
    update_thread thread λ t. record t { duracion_rafaga = sub_d tiempo aux2 }

  -- The end of a burst that leads to `E_BLOCKED`: the CPU time grows, and a positive
  -- `duracionRafaga` becomes the time since then.
  unfoldable pub cerrar_rafaga : Ref → Cmd (Unit {0})
  cerrar_rafaga thread = do
    tiempo ← get_time_today
    update_thread thread λ t. record t {
      tiempo_de_cpu = add_d t.tiempo_de_cpu (sub_d tiempo t.tiempo_inicial_en_exec);
    }
    u ← load_thread thread
    if lt_d zero_d u.duracion_rafaga then medir_rafaga thread u.duracion_rafaga else pure tt

  unfoldable pub ejecucion_a_bloqueado : Ref → ℕ → Cmd (Unit {0})
  ejecucion_a_bloqueado thread socket = do
    process ← find_process socket
    cerrar_rafaga thread
    remover_ult_exec process
    update_thread thread λ t. record t { estado = e_blocked }
    lock mutex_blocked_queue
    set_blocked_queue λ s. list_add s.blocked_queue thread
    unlock mutex_blocked_queue

  unfoldable pub ejecucion_a_bloqueado_por_semaforo : ℕ → ℕ → Ref → Cmd (Unit {0})
  ejecucion_a_bloqueado_por_semaforo tid socket semaforo = do
    program ← find_process socket
    p ← load_process program
    thread ← find_thread p tid
    cerrar_rafaga thread
    remover_ult_exec program
    update_thread thread λ t. record t { estado = e_blocked }
    update_semaphore semaforo λ x. record x { blocked_list = list_add x.blocked_list thread }
    lock mutex_blocked_queue
    set_blocked_queue λ s. list_add s.blocked_queue thread
    unlock mutex_blocked_queue

  unfoldable pub nuevo_a_listo : Ref → ℕ → Cmd (Unit {0})
  nuevo_a_listo ult process_id = do
    program ← find_process process_id
    tiempo ← get_time_today
    update_thread ult λ t. record t { tiempo_inicial_en_ready = tiempo }
    update_process program λ p. record p { ready_list = list_add p.ready_list ult }
    eliminar_ult_cola_actual ult program
    update_thread ult λ t. record t { estado = e_ready }
    set_actual_multiprog λ n. n +ℤ pos 1
    sem_post program
