-- ===== src/Suse/Frame/Plan.antt =====
-- The scheduler, `join` and the metrics keep a stable condition.
use Prim.Native.String.{String}
use tp_sistemas_operativos.Base.{ℕ, zero, suc, ◌+◌, List, [], ◌∷◌}
use tp_sistemas_operativos.Commons.{Ref, Machine}
use tp_sistemas_operativos.Suse.State.{Cop, Process, Suse}
use tp_sistemas_operativos.Suse.Run.{Cmd, load_semaphore}
use tp_sistemas_operativos.Suse.Logic.{
  Keeps, Keeps-or_fault, Keeps-bind, Keeps-gets, Keeps-pure, Keeps-then,
}
use tp_sistemas_operativos.Suse.Frame.Primitives.{
  Stable, stable_rules, update_thread-Keeps, load_thread-Keeps,
}
use tp_sistemas_operativos.Suse.Frame.Moves.{
  ejecucion_a_listo-Keeps, listo_a_ejecucion-Keeps, bloqueado_a_listo-Keeps,
  ejecucion_a_bloqueado-Keeps,
}
use tp_sistemas_operativos.Suse.Scheduler.{
  validar_grado_multiprogramacion, estimar_ults_listos, ordenar_por_sjf, ordenar_cola_listos,
  desalojar, ejecutar_primero, obtener_proximo_ejecutar, ult_create, generar_process,
}
use tp_sistemas_operativos.Suse.Joins.{
  join, liberar_joiner, desjoinear_hilo, desjoinear_desde, desjoinear,
}
use tp_sistemas_operativos.Suse.Metrics.{
  Conteo, contar_hilos, por_cada, metricas_por_programa, sumar_ejecucion, get_ejecucion_total,
  metricas_de_hilos, metricas_por_hilo, valores_semaforos, metricas_sistema, metricas,
}
use tp_sistemas_operativos.Suse.Requests.{esperar_handshake}

module _ ⦃m : Machine⦄ {I : Suse → Type 0} (stable : Stable I) where
  open m use {Double}

  pub validar-Keeps : Keeps I validar_grado_multiprogramacion
  unfolding validar_grado_multiprogramacion
  validar-Keeps = search stable_rules

  pub ult_create-Keeps : (p : Ref) (tid : ℕ) → Keeps I (ult_create p tid)
  unfolding ult_create
  ult_create-Keeps p tid = search stable_rules depth 20

  pub generar_process-Keeps : (id : ℕ) → Keeps I (generar_process id)
  unfolding generar_process
  generar_process-Keeps id = search stable_rules

  estimar_ults_listos-Keeps : (l : List Ref) → Keeps I (estimar_ults_listos l)
  unfolding estimar_ults_listos
  estimar_ults_listos-Keeps [] = search stable_rules
  estimar_ults_listos-Keeps (r ∷ l) =
      Keeps-bind _ _ (Keeps-gets _)
        (λ alpha. Keeps-then _ _ (update_thread-Keeps stable r _) (estimar_ults_listos-Keeps l))

  ordenar_cola_listos-Keeps : (p : Ref) → Keeps I (ordenar_cola_listos p)
  unfolding ordenar_cola_listos ordenar_por_sjf
  ordenar_cola_listos-Keeps p = search (stable_rules, estimar_ults_listos-Keeps) depth 20

  desalojar-Keeps : (r : Ref) (id : ℕ) (t : Double) → Keeps I (desalojar r id t)
  unfolding desalojar
  desalojar-Keeps r id t = search (stable_rules, ejecucion_a_listo-Keeps) depth 20

  ejecutar_primero-Keeps : (p : Ref) (t : Double) → Keeps I (ejecutar_primero p t)
  unfolding ejecutar_primero
  ejecutar_primero-Keeps p t = search (stable_rules, listo_a_ejecucion-Keeps) depth 20

  pub obtener_proximo_ejecutar-Keeps : (p : Ref) → Keeps I (obtener_proximo_ejecutar p)
  unfolding obtener_proximo_ejecutar
  obtener_proximo_ejecutar-Keeps p =
      search (stable_rules, desalojar-Keeps, ordenar_cola_listos-Keeps, ejecutar_primero-Keeps)
        depth 20

  pub join-Keeps : (id tid : ℕ) → Keeps I (join id tid)
  unfolding join
  join-Keeps id tid = search (stable_rules, ejecucion_a_bloqueado-Keeps) depth 20

  liberar_joiner-Keeps : (r : Ref) → Keeps I (liberar_joiner r)
  unfolding liberar_joiner
  liberar_joiner-Keeps r = search (stable_rules, validar-Keeps, bloqueado_a_listo-Keeps) depth 30

  desjoinear_hilo-Keeps : (r q : Ref) → Keeps I (desjoinear_hilo r q)
  unfolding desjoinear_hilo
  desjoinear_hilo-Keeps r q = search (stable_rules, liberar_joiner-Keeps) depth 20

  desjoinear_desde-Keeps : (r : Ref) (i n : ℕ) → Keeps I (desjoinear_desde r i n)
  unfolding desjoinear_desde
  desjoinear_desde-Keeps r i zero = search stable_rules
  desjoinear_desde-Keeps r i (suc n) =
      Keeps-bind _ _ (load_thread-Keeps stable r)
        (λ t. Keeps-then _ _ (desjoinear_hilo-Keeps r _) (desjoinear_desde-Keeps r (i + 1) n))

  pub desjoinear-Keeps : (r : Ref) → Keeps I (desjoinear r)
  unfolding desjoinear
  desjoinear-Keeps r = search (stable_rules, desjoinear_desde-Keeps) depth 20

  pub esperar_handshake-Keeps :
      (id : ℕ) (inicio : String) (cop : Cop) → Keeps I (esperar_handshake id inicio cop)
  unfolding esperar_handshake
  esperar_handshake-Keeps id inicio cop = search stable_rules depth 20

  contar_hilos-Keeps : (p : Process) (j n : ℕ) (c : Conteo) → Keeps I (contar_hilos p j n c)
  unfolding contar_hilos
  contar_hilos-Keeps p j zero c = search stable_rules
  contar_hilos-Keeps p j (suc n) c =
      Keeps-bind _ _ (load_thread-Keeps stable _) (λ t. contar_hilos-Keeps p (j + 1) n _)

  por_cada-Keeps :
      {A : Type 0} (f : Ref → Cmd A) (i n : ℕ)
      → ((r : Ref) → Keeps I (f r))
      → Keeps I (por_cada f i n)
  unfolding por_cada
  por_cada-Keeps f i zero h = search stable_rules
  por_cada-Keeps f i (suc n) h =
      Keeps-bind _ _ (Keeps-gets _) λ r.
        Keeps-bind _ _ (h r) λ a. Keeps-bind _ _ (por_cada-Keeps f (i + 1) n h) λ l. Keeps-pure _

  metricas_por_programa-Keeps : Keeps I metricas_por_programa
  unfolding metricas_por_programa
  metricas_por_programa-Keeps = search (stable_rules, contar_hilos-Keeps, por_cada-Keeps) depth 20

  sumar_ejecucion-Keeps :
      (p : Process) (t : Double) (i n : ℕ) (c : Double) → Keeps I (sumar_ejecucion p t i n c)
  unfolding sumar_ejecucion
  sumar_ejecucion-Keeps p t i zero c = search stable_rules
  sumar_ejecucion-Keeps p t i (suc n) c =
      Keeps-bind _ _ (load_thread-Keeps stable _) (λ u. sumar_ejecucion-Keeps p t (i + 1) n _)

  get_ejecucion_total-Keeps : (p : Process) → Keeps I (get_ejecucion_total p)
  unfolding get_ejecucion_total
  get_ejecucion_total-Keeps p = search (stable_rules, sumar_ejecucion-Keeps)

  metricas_de_hilos-Keeps :
      (p : Process) (t : Double) (j n : ℕ) → Keeps I (metricas_de_hilos p t j n)
  unfolding metricas_de_hilos
  metricas_de_hilos-Keeps p t j zero = search stable_rules
  metricas_de_hilos-Keeps p t j (suc n) = Keeps-bind _ _ (load_thread-Keeps stable _) λ u.
      Keeps-bind _ _ (get_ejecucion_total-Keeps p)
        λ d. Keeps-bind _ _ (metricas_de_hilos-Keeps p t (j + 1) n) λ l. Keeps-pure _

  metricas_por_hilo-Keeps : Keeps I metricas_por_hilo
  unfolding metricas_por_hilo
  metricas_por_hilo-Keeps = search (stable_rules, metricas_de_hilos-Keeps, por_cada-Keeps) depth 20

  load_semaphore-Keeps : (r : Ref) → Keeps I (load_semaphore r)
  unfolding load_semaphore
  load_semaphore-Keeps r = record { at = λ s. (Keeps-or_fault (s.semaphores r)).at s }

  valores_semaforos-Keeps : (i n : ℕ) → Keeps I (valores_semaforos i n)
  unfolding valores_semaforos
  valores_semaforos-Keeps i zero = search stable_rules
  valores_semaforos-Keeps i (suc n) = Keeps-bind _ _ (Keeps-gets _) λ r.
      Keeps-bind _ _ (load_semaphore-Keeps r)
        λ x. Keeps-bind _ _ (valores_semaforos-Keeps (i + 1) n) λ l. Keeps-pure _

  pub metricas-Keeps : Keeps I metricas
  unfolding metricas metricas_sistema
  metricas-Keeps =
      search
        (
          stable_rules, valores_semaforos-Keeps, metricas_por_programa-Keeps,
          metricas_por_hilo-Keeps,
        )
        depth 30
