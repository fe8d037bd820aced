-- ===== src/Suse/Metrics.antt =====
-- The metrics of suse.c. Each function returns what it writes to the log.
use Prim.Native.String.{String}
use tp_sistemas_operativos.Base.{ℕ, zero, suc, ◌+◌, ◌==◌, List, [], ◌∷◌, if◌then◌else◌}
use tp_sistemas_operativos.Base.Int.{ℤ, pos}
use tp_sistemas_operativos.Commons.{Ref, Machine}
use tp_sistemas_operativos.Suse.State.{
  Estado, e_ready, e_execute, e_blocked, e_exit, e_new, mutex_semaforos, mutex_multiprog, Process,
}
use tp_sistemas_operativos.Suse.Run.{
  Cmd, pure, gets, ◌>>=◌, ◌>>◌, load_thread, load_process, load_semaphore, lock, unlock,
  get_time_today, thread_is,
}

-- How many threads of a process stand in each state; `executing` is set to 1 and not counted.
pub record Conteo : Type 0 where
  pub news : ℕ
  pub readys : ℕ
  pub executing : ℕ
  pub blocked : ℕ

abbrev pub sin_hilos : Conteo
sin_hilos = record { news = 0; readys = 0; executing = 0; blocked = 0 }

-- The `switch` of `metricas_por_programa`.
unfoldable pub contar : Estado → Conteo → Conteo
contar e_ready c = record c { readys = c.readys + 1 }
contar e_execute c = record c { executing = 1 }
contar e_blocked c = record c { blocked = c.blocked + 1 }
contar e_new c = record c { news = c.news + 1 }
contar e_exit c = c

module _ ⦃m : Machine⦄ where
  open m use {
    Double, zero_d, hundred_d, add_d, sub_d, mul_d, div_d, eq_d, to_int, list_get, list_size,
    list_filter,
  }

  pub record MetricaHilo : Type 0 where
    pub tid : ℕ
    pub ejecucion : Double
    pub espera : Double
    pub cpu : Double
    pub porcentaje : ℤ

  -- The rounds `j`, …, of the loop over `ULTS`, `quedan` in number.
  unfoldable pub contar_hilos : Process → ℕ → ℕ → Conteo → Cmd Conteo
  unfolding contar
  contar_hilos p j zero c = pure c
  contar_hilos p j (suc quedan) c = do
    t ← load_thread (list_get p.ults j)
    contar_hilos p (j + 1) quedan (contar t.estado c)

  unfoldable pub metricas_de_programa : Ref → Cmd (ℕ × Conteo × ℕ)
  unfolding contar_hilos
  metricas_de_programa process = do
    p ← load_process process
    c ← contar_hilos p 0 (list_size p.ults) sin_hilos
    salidos ←
        gets λ s.
          list_size (list_filter s.exit_queue (thread_is s (λ t. t.proceso_id == p.process_id)))
    pure (p.process_id, c, salidos)

  -- One action for each process, in the order of the list.
  unfoldable pub por_cada : {A : Type 0} → (Ref → Cmd A) → ℕ → ℕ → Cmd (List A)
  por_cada f i zero = pure []
  por_cada f i (suc quedan) = do
    process ← gets λ s. list_get s.process i
    a ← f process
    resto ← por_cada f (i + 1) quedan
    pure (a ∷ resto)

  unfoldable pub metricas_por_programa : Cmd (List (ℕ × Conteo × ℕ))
  unfolding metricas_de_programa por_cada
  metricas_por_programa = do
    cantidad ← gets λ s. list_size s.process
    por_cada metricas_de_programa 0 cantidad

  unfoldable pub sumar_ejecucion : Process → Double → ℕ → ℕ → Double → Cmd Double
  sumar_ejecucion p tiempo i zero contador = pure contador
  sumar_ejecucion p tiempo i (suc quedan) contador = do
    t ← load_thread (list_get p.ults i)
    sumar_ejecucion p tiempo (i + 1) quedan (add_d contador (sub_d tiempo t.tiempo_de_ejecucion))

  unfoldable pub get_ejecucion_total : Process → Cmd Double
  unfolding sumar_ejecucion
  get_ejecucion_total p = do
    tiempo ← get_time_today
    sumar_ejecucion p tiempo 0 (list_size p.ults) zero_d

  unfoldable pub porcentaje_de : Double → Double → ℤ
  porcentaje_de ejecucion total =
      if eq_d total zero_d then pos 0 else to_int (mul_d (div_d ejecucion total) hundred_d)

  unfoldable pub metricas_de_hilos : Process → Double → ℕ → ℕ → Cmd (List MetricaHilo)
  unfolding get_ejecucion_total porcentaje_de
  metricas_de_hilos p tiempo j zero = pure []
  metricas_de_hilos p tiempo j (suc quedan) = do
    t ← load_thread (list_get p.ults j)
    total ← get_ejecucion_total p
    resto ← metricas_de_hilos p tiempo (j + 1) quedan
    let ejecucion = sub_d tiempo t.tiempo_de_ejecucion
    let porcentaje = porcentaje_de ejecucion total
    pure (
        record {
          tid = t.tid;
          ejecucion = ejecucion;
          espera = t.tiempo_de_espera;
          cpu = t.tiempo_de_cpu;
          porcentaje = porcentaje;
        }
        ∷ resto)

  unfoldable pub metricas_por_hilo : Cmd (List (List MetricaHilo))
  unfolding metricas_de_hilos por_cada
  metricas_por_hilo = do
    tiempo ← get_time_today
    cantidad ← gets λ s. list_size s.process
    por_cada
        (λ process. do p ← load_process process; metricas_de_hilos p tiempo 0 (list_size p.ults)) 0
        cantidad

  unfoldable pub valores_semaforos : ℕ → ℕ → Cmd (List (String × ℤ))
  valores_semaforos i zero = pure []
  valores_semaforos i (suc quedan) = do
    semaforo ← gets λ s. list_get s.semaforos i
    x ← load_semaphore semaforo
    resto ← valores_semaforos (i + 1) quedan
    pure ((x.name, x.value) ∷ resto)

  unfoldable pub metricas_sistema : Cmd (List (String × ℤ) × ℤ)
  unfolding valores_semaforos
  metricas_sistema = do
    cantidad ← gets λ s. list_size s.semaforos
    lock mutex_semaforos
    valores ← valores_semaforos 0 cantidad
    unlock mutex_semaforos
    lock mutex_multiprog
    grado ← gets λ s. s.actual_multiprog
    unlock mutex_multiprog
    pure (valores, grado)

  -- One round of `metricas`, after its `sleep`, and what `close_tid` calls at its end.
  unfoldable pub metricas : Cmd (Unit {0})
  metricas = do metricas_sistema; metricas_por_programa; metricas_por_hilo; pure tt
