-- ===== src/Suse/Scheduler.antt =====
-- The part of suse.c that picks the thread to run next, and the creation of threads and processes.
use tp_sistemas_operativos.Base.{
  ℕ, ◌==◌, Bool, false, not, none, some, List, [], ◌∷◌, if◌then◌else◌,
}
use tp_sistemas_operativos.Base.Int.{ℤ, pos, negsuc, ◌+ℤ◌, leb_ℤ}
use tp_sistemas_operativos.Commons.{Ref, null, Machine}
use tp_sistemas_operativos.Suse.State.{e_new, mutex_multiprog, Thread, Suse}
use tp_sistemas_operativos.Suse.Run.{
  Cmd, pure, gets, ◌>>=◌, ◌>>◌, set_new_queue, set_process_list, load_thread, load_process,
  update_thread, update_process, new_thread_object, new_process_object, lock, unlock,
  get_time_today, sem_wait, thread_is, process_is,
}
use tp_sistemas_operativos.Suse.Transitions.{
  ejecucion_a_listo, listo_a_ejecucion, nuevo_a_ejecucion, nuevo_a_listo,
}

module _ ⦃m : Machine⦄ where
  open m use {
    Double, zero_d, one_d, add_d, sub_d, mul_d, lt_d, eq_d, list_add, list_get, list_find,
    list_sort,
  }

  unfoldable pub validar_grado_multiprogramacion : Cmd Bool
  validar_grado_multiprogramacion = gets λ s. leb_ℤ (s.actual_multiprog +ℤ pos 1) s.max_multiprog

  -- A new thread record, as `ULT_create` fills it in.
  abbrev pub hilo_nuevo : ℕ → ℕ → Double → Thread
  hilo_nuevo tid process_id tiempo = record {
    tid = tid;
    estado = e_new;
    proceso_id = process_id;
    duracion_rafaga = zero_d;
    estimacion_ultima_rafaga = zero_d;
    ejecutado_desde_estimacion = false;
    joined_by = [];
    join_to = [];
    tiempo_de_ejecucion = tiempo;
    tiempo_de_espera = zero_d;
    tiempo_de_cpu = zero_d;
    tiempo_inicial_en_ready = zero_d;
    tiempo_inicial_en_exec = zero_d;
  }

  unfoldable pub ult_create : Ref → ℕ → Cmd Ref
  ult_create process tid = do
    tiempo ← get_time_today
    p ← load_process process
    new_thread ← new_thread_object (hilo_nuevo tid p.process_id tiempo)
    update_process process λ p'. record p' { ults = list_add p'.ults new_thread }
    set_new_queue λ s. list_add s.new_queue new_thread
    pure new_thread

  unfoldable pub generar_process : ℕ → Cmd Ref
  generar_process process_id = new_process_object (record {
    ults = [];
    process_id = process_id;
    ready_list = [];
    exec_thread = null;
    semaforo_ready = 0;
  })

  -- `if (validar_grado_multiprogramacion()) …`
  unfoldable pub si_hay_lugar : Cmd (Unit {0}) → Cmd (Unit {0})
  unfolding validar_grado_multiprogramacion
  si_hay_lugar accion = do
    hay_lugar ← validar_grado_multiprogramacion
    if hay_lugar then accion else pure tt

  unfoldable pub handle_ult_create : Ref → ℕ → Cmd (Unit {0})
  handle_ult_create process tid = do
    new_thread ← ult_create process tid
    lock mutex_multiprog
    si_hay_lugar (do p ← load_process process; nuevo_a_listo new_thread p.process_id)
    unlock mutex_multiprog

  unfoldable pub handle_main_thread_create : ℕ → ℕ → Cmd (Unit {0})
  handle_main_thread_create socket_actual tid = do
    new_process ← generar_process socket_actual
    set_process_list λ s. list_add s.process new_process
    main_thread ← ult_create new_process tid
    lock mutex_multiprog
    si_hay_lugar (do p ← load_process new_process; nuevo_a_ejecucion main_thread p.process_id)
    unlock mutex_multiprog

  -- `estimar` for one thread: the exponential average, once for each burst that was executed.
  unfoldable pub estimar_rafaga : Double → Thread → Thread
  estimar_rafaga alpha t = record t {
    estimacion_ultima_rafaga =
        add_d (mul_d alpha t.duracion_rafaga)
          (mul_d (sub_d one_d alpha) t.estimacion_ultima_rafaga);
  }

  unfoldable pub estimar : Double → Thread → Thread
  unfolding estimar_rafaga
  estimar alpha t =
      if t.ejecutado_desde_estimacion
      then estimar_rafaga alpha (record t { ejecutado_desde_estimacion = false })
      else t

  -- `list_iterate(ready_list, estimar)`, in the order of the list.
  unfoldable pub estimar_ults_listos : List Ref → Cmd (Unit {0})
  estimar_ults_listos [] = pure tt
  estimar_ults_listos (ult ∷ ready_list) = do
    alpha ← gets λ s. s.alpha_sjf
    update_thread ult (estimar alpha)
    estimar_ults_listos ready_list

  -- The first thread of the process with an id, or `NULL`.
  abbrev pub primer_ult : Suse → ℕ → Ref
  primer_ult s id =
      elim (s.processes (list_find s.process (process_is s (λ p. p.process_id == id)))) [
        | none ↦ null
        | some p ↦ list_get p.ults 0
      ]

  -- On a tie the first thread of the process, a pointer, is the result: true unless it is `NULL`.
  abbrev pub comparar : Ref → Thread → Thread → Bool
  comparar primero ult1 ult2 =
      if eq_d ult1.estimacion_ultima_rafaga ult2.estimacion_ultima_rafaga
      then not (primero == null)
      else lt_d ult1.estimacion_ultima_rafaga ult2.estimacion_ultima_rafaga

  -- The comparison given to `list_sort`. It takes and gives back `mutex_process_list`, which its
  -- callers do not hold.
  unfoldable pub funcion_sjf : Suse → Ref → Ref → Bool
  funcion_sjf s ult1 ult2 = elim (s.threads ult1) [
    | none ↦ false
    | some t1 ↦ thread_is s (comparar (primer_ult s t1.proceso_id) t1) ult2
  ]

  unfoldable pub ordenar_por_sjf : Ref → Cmd (Unit {0})
  unfolding funcion_sjf
  ordenar_por_sjf process = do
    antes_de ← gets funcion_sjf
    update_process process λ p. record p { ready_list = list_sort p.ready_list antes_de }

  unfoldable pub ordenar_cola_listos : Ref → Cmd (Unit {0})
  ordenar_cola_listos process = do
    p ← load_process process
    estimar_ults_listos p.ready_list
    ordenar_por_sjf process

  -- The thread that runs, if any, goes back to the ready list.
  unfoldable pub desalojar : Ref → ℕ → Double → Cmd (Unit {0})
  desalojar exec_actual process_id tiempo_actual = do
    e ← load_thread exec_actual
    if eq_d e.duracion_rafaga zero_d
        then pure tt
        else (update_thread exec_actual
            λ t. record t { duracion_rafaga = sub_d tiempo_actual e.duracion_rafaga })
    ejecucion_a_listo exec_actual process_id

  -- The thread at the head of the ready list runs next.
  unfoldable pub ejecutar_primero : Ref → Double → Cmd ℤ
  ejecutar_primero process tiempo_actual = do
    p ← load_process process
    let next_ult = list_get p.ready_list 0
    if next_ult == null then pure (negsuc 0) else do
      next ← load_thread next_ult
      listo_a_ejecucion next_ult p.process_id
      update_thread next_ult λ t. record t { duracion_rafaga = tiempo_actual }
      pure (pos next.tid)

  unfoldable pub obtener_proximo_ejecutar : Ref → Cmd ℤ
  obtener_proximo_ejecutar process = do
    tiempo_actual ← get_time_today
    p ← load_process process
    if p.exec_thread == null then pure tt else desalojar p.exec_thread p.process_id tiempo_actual
    sem_wait process
    ordenar_cola_listos process
    ejecutar_primero process tiempo_actual
