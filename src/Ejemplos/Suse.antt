-- ===== src/Ejemplos/Suse.antt =====
-- Runs of suse.c on concrete states.
use mathlib.Core.Option.{none-ne-some}
use tp_sistemas_operativos.Base.{
  ℕ, ◌≡◌, refl, inl, false, none, some, List, [], ◌∷◌, ◌==◌, arith, if◌then◌else◌,
}
use tp_sistemas_operativos.Base.Int.{pos, negsuc, ◌+ℤ◌, ◌-ℤ◌}
use tp_sistemas_operativos.Commons.{null}
use tp_sistemas_operativos.Ejemplos.Maquina.{maquina}
use tp_sistemas_operativos.Suse.State.{
  e_execute, e_blocked, Semaforo, Process, Thread, Suse, cop_suse_create,
}
use tp_sistemas_operativos.Suse.Run.{
  Run, pure, gets, or_fault, modify, ◌>>=◌, ◌>>◌, load_thread, load_process, load_semaphore,
  set_thread, set_process, set_semaphore, update_thread, update_process, update_semaphore,
  set_new_queue, set_blocked_queue, set_process_list, set_actual_multiprog, new_thread_object,
  new_process_object, lock_on, lock, unlock, get_time_today, enviar, find_process, find_thread,
  sem_post, ok, fault, blocks,
}
use tp_sistemas_operativos.Suse.Transitions.{
  remover_ult_nuevo, remover_ult_bloqueado, remover_ult_exec, eliminar_de, eliminar_ult_cola_actual,
  nuevo_a_ejecucion, bloqueado_a_listo, medir_rafaga, cerrar_rafaga,
  ejecucion_a_bloqueado_por_semaforo,
}
use tp_sistemas_operativos.Suse.Scheduler.{
  validar_grado_multiprogramacion, hilo_nuevo, ult_create, generar_process, si_hay_lugar,
  handle_ult_create, handle_main_thread_create,
}
use tp_sistemas_operativos.Suse.Semaphores.{
  init_semaforos, find_semaforo, incrementar_semaforo, desbloquear_hilos_semaforo,
  decrementar_semaforo, wait_sem, signal_sem,
}
use tp_sistemas_operativos.Suse.Requests.{
  Pedido, esperar_handshake, handle_suse_create, atender, handle_conection_suse, pedido, otro,
}
use tp_sistemas_operativos.Suse.Close.{close_tid, cerrar_proceso, liberar_hilos}
use tp_sistemas_operativos.Suse.Semaforo.{IsNamed, IsCaller}
use tp_sistemas_operativos.Suse.Semaforo.Wait.{tras_wait, wait_sem-tras_wait}
use tp_sistemas_operativos.Suse.Semaforo.Signal.{tras_signal, signal_sem-tras_signal}
use tp_sistemas_operativos.Suse.Semaforo.Errores.{semaforo-desconocido, signal_sem-maximo}
use tp_sistemas_operativos.Suse.Semaforo.Inicio.{AllBalanced, init_semaforos-AllBalanced}
use tp_sistemas_operativos.Suse.Semaforo.Balance.{
  IsBalanced, wait_sem-IsBalanced, signal_sem-IsBalanced,
}
use tp_sistemas_operativos.Suse.Multiprog.Contador.{Cuenta, atender-Cuenta}
use tp_sistemas_operativos.Suse.Multiprog.{Acotado, handle_conection-Acotado}
use tp_sistemas_operativos.Suse.Cierre.{close_tid-blocks}
use tp_sistemas_operativos.Suse.Cierre.Principal.{close_tid-cuenta}

-- A process at 1 with its main thread at 2, which runs, a new thread at 3, and a semaphore at 4
-- whose value is 0.
abbrev proceso : Process
proceso = record {
  ults = 2 ∷ 3 ∷ [];
  process_id = 5;
  ready_list = [];
  exec_thread = 2;
  semaforo_ready = 0;
}

abbrev semaforo : Semaforo
semaforo = record { name = "A"; init = pos 0; max = pos 1; value = pos 0; blocked_list = [] }

abbrev principal : Thread ⦃m = maquina⦄
principal = record (hilo_nuevo ⦃m = maquina⦄ 0 5 0) { estado = e_execute }

abbrev nuevo : Thread ⦃m = maquina⦄
nuevo = hilo_nuevo ⦃m = maquina⦄ 1 5 0

abbrev inicial : Suse ⦃m = maquina⦄
inicial = record {
  threads = λ r. if r == 2 then some principal else if r == 3 then some nuevo else none;
  processes = λ r. if r == 1 then some proceso else none;
  semaphores = λ r. if r == 4 then some semaforo else none;
  next_ref = 5;
  alpha_sjf = 0;
  max_multiprog = pos 1;
  actual_multiprog = pos 1;
  process = 1 ∷ [];
  semaforos = 4 ∷ [];
  new_queue = 3 ∷ [];
  blocked_queue = [];
  exit_queue = [];
  held = λ k. false;
  sent = [];
  reads = 0;
}

abbrev estado_de : {A : Type 0} → Run ⦃m = maquina⦄ A → Suse ⦃m = maquina⦄
estado_de (ok a s) = s
estado_de fault = inicial
estado_de blocks = inicial

close_tid-blocks_example : close_tid ⦃m = maquina⦄ 1 5 inicial ≡ blocks
close_tid-blocks_example =
    close_tid-blocks ⦃m = maquina⦄ inicial 5 1 1 3 proceso nuevo
      (record {
        free = λ k. refl;
        owner = refl;
        process = refl;
        found = refl;
        thread = refl;
        not_main = refl;
        unjoined = refl;
      })
      (inl refl)

abbrev tras_espera : Suse ⦃m = maquina⦄
tras_espera = estado_de (wait_sem ⦃m = maquina⦄ 5 0 "A" inicial)

llama : IsCaller ⦃m = maquina⦄ inicial 5 0 2
llama = record { q = 1; p = proceso; owner = refl; process = refl; thread = refl }

nombrado : IsNamed ⦃m = maquina⦄ inicial "A" 4 semaforo
nombrado = record { found = refl; there = refl; has = refl }

-- The main thread waits on "A", whose value is 0: it is blocked.
espera_ok : wait_sem ⦃m = maquina⦄ 5 0 "A" inicial ≡ ok (pos 0) tras_espera
unfolding wait_sem lock decrementar_semaforo find_semaforo load_semaphore
    ejecucion_a_bloqueado_por_semaforo find_process load_process find_thread cerrar_rafaga
    get_time_today update_thread remover_ult_exec update_process update_semaphore set_blocked_queue
    unlock ◌-ℤ◌ gets load_thread lock_on modify or_fault pure set_process set_semaphore set_thread
    ◌>>=◌ ◌>>◌ medir_rafaga
espera_ok = refl

wait_sem-tras_wait_example : tras_espera.semaphores 4 ≡ some (tras_wait ⦃m = maquina⦄ 2 semaforo)
wait_sem-tras_wait_example =
    wait_sem-tras_wait ⦃m = maquina⦄ inicial tras_espera 5 0 "A" 4 2 semaforo (pos 0) nombrado llama
      espera_ok

en_equilibrio : IsBalanced semaforo
en_equilibrio = record { count = refl; threads = tt }

wait_sem-IsBalanced_example : IsBalanced (tras_wait ⦃m = maquina⦄ 2 semaforo)
wait_sem-IsBalanced_example =
    wait_sem-IsBalanced ⦃m = maquina⦄ inicial tras_espera 5 0 "A" 4 2 semaforo
      (tras_wait ⦃m = maquina⦄ 2 semaforo) (pos 0) nombrado llama refl en_equilibrio espera_ok
      (wait_sem-tras_wait ⦃m = maquina⦄ inicial tras_espera 5 0 "A" 4 2 semaforo (pos 0) nombrado
        llama espera_ok)

-- The semaphore with the main thread blocked, and a state that it stands in.
abbrev esperado : Semaforo
esperado = record semaforo { value = negsuc 0; blocked_list = 2 ∷ [] }

abbrev bloqueado : Suse ⦃m = maquina⦄
bloqueado = record inicial {
  threads = λ r.
      if r == 2
      then some (record principal { estado = e_blocked })
      else if r == 3
      then some nuevo
      else none;
  processes = λ r. if r == 1 then some (record proceso { exec_thread = null }) else none;
  semaphores = λ r. if r == 4 then some esperado else none;
  blocked_queue = 2 ∷ [];
}

abbrev tras_aviso : Suse ⦃m = maquina⦄
tras_aviso = estado_de (signal_sem ⦃m = maquina⦄ 1 "A" bloqueado)

nombrado_bloqueado : IsNamed ⦃m = maquina⦄ bloqueado "A" 4 esperado
nombrado_bloqueado = record { found = refl; there = refl; has = refl }

-- A signal to "A" makes the main thread ready.
aviso_ok : signal_sem ⦃m = maquina⦄ 1 "A" bloqueado ≡ ok (pos 0) tras_aviso
unfolding signal_sem lock incrementar_semaforo desbloquear_hilos_semaforo find_semaforo
    load_semaphore find_process load_process bloqueado_a_listo eliminar_ult_cola_actual eliminar_de
    remover_ult_bloqueado sem_post get_time_today update_thread update_process update_semaphore
    set_blocked_queue unlock ◌+ℤ◌ gets load_thread lock_on modify or_fault pure set_process
    set_semaphore set_thread ◌>>=◌ ◌>>◌
aviso_ok = refl

signal_sem-tras_signal_example : tras_aviso.semaphores 4 ≡ some (tras_signal ⦃m = maquina⦄ esperado)
signal_sem-tras_signal_example =
    signal_sem-tras_signal ⦃m = maquina⦄ bloqueado tras_aviso 1 "A" 4 esperado (pos 0)
      nombrado_bloqueado aviso_ok

signal_sem-IsBalanced_example : IsBalanced (tras_signal ⦃m = maquina⦄ esperado)
signal_sem-IsBalanced_example =
    signal_sem-IsBalanced ⦃m = maquina⦄ bloqueado tras_aviso 1 "A" 4 esperado
      (tras_signal ⦃m = maquina⦄ esperado) (pos 0) nombrado_bloqueado
      (record { count = refl; threads = (refl, tt) }) aviso_ok
      (signal_sem-tras_signal ⦃m = maquina⦄ bloqueado tras_aviso 1 "A" 4 esperado (pos 0)
        nombrado_bloqueado aviso_ok)

abbrev tras_cierre : Suse ⦃m = maquina⦄
tras_cierre = estado_de (close_tid ⦃m = maquina⦄ 0 5 inicial)

-- The main thread ends, and with it the process.
cierre_ok : close_tid ⦃m = maquina⦄ 0 5 inicial ≡ ok (pos 0) tras_cierre
unfolding close_tid cerrar_proceso liberar_hilos find_process load_process find_thread load_thread
    set_thread set_process set_process_list gets modify or_fault pure ◌>>=◌ ◌>>◌
cierre_ok = refl

close_tid-cuenta_example : tras_cierre.actual_multiprog ≡ pos 1
close_tid-cuenta_example =
    close_tid-cuenta ⦃m = maquina⦄ inicial tras_cierre 5 0 1 2 proceso principal (pos 0)
      (record { owner = refl; process = refl; found = refl; thread = refl; main = refl }) cierre_ok

-- No semaphore is named "B".
semaforo-desconocido_example :
    (wait_sem ⦃m = maquina⦄ 5 0 "B" inicial ≡ ok (negsuc 0) inicial)
    × (signal_sem ⦃m = maquina⦄ 0 "B" inicial ≡ ok (negsuc 0) inicial)
semaforo-desconocido_example = semaforo-desconocido ⦃m = maquina⦄ inicial 5 0 "B" refl refl

abbrev maximo : Semaforo
maximo = record semaforo { value = pos 1 }

abbrev al_maximo : Suse ⦃m = maquina⦄
al_maximo = record inicial { semaphores = λ r. if r == 4 then some maximo else none }

signal_sem-maximo_example : signal_sem ⦃m = maquina⦄ 0 "A" al_maximo ≡ ok (negsuc 0) al_maximo
signal_sem-maximo_example =
    signal_sem-maximo ⦃m = maquina⦄ al_maximo 0 "A" 4 maximo refl
      (record { found = refl; there = refl; has = refl }) refl

-- A program that starts, creates a second thread, and leaves.
abbrev vacio : Suse ⦃m = maquina⦄
vacio = record inicial {
  threads = λ r. none;
  processes = λ r. none;
  process = [];
  new_queue = [];
  actual_multiprog = pos 0;
}

abbrev crear : ℕ → Pedido
crear tid = record {
  codigo = pedido cop_suse_create;
  inicio = "Inicio autenticacion";
  tid = tid;
  sem = "";
}

abbrev pedidos : List Pedido
pedidos = crear 0 ∷ crear 1 ∷ record (crear 0) { codigo = otro } ∷ []

abbrev tras_conexion : Suse ⦃m = maquina⦄
tras_conexion = estado_de (handle_conection_suse ⦃m = maquina⦄ 5 pedidos vacio)

conexion_ok : handle_conection_suse ⦃m = maquina⦄ 5 pedidos vacio ≡ ok tt tras_conexion
unfolding handle_conection_suse atender handle_suse_create esperar_handshake enviar find_process
    handle_ult_create handle_main_thread_create generar_process new_process_object set_process_list
    ult_create get_time_today load_process new_thread_object update_process set_new_queue lock
    lock_on unlock si_hay_lugar validar_grado_multiprogramacion nuevo_a_ejecucion
    eliminar_ult_cola_actual eliminar_de remover_ult_nuevo update_thread set_actual_multiprog
    load_thread set_thread set_process gets modify or_fault pure ◌>>=◌ ◌>>◌ ◌+ℤ◌
conexion_ok = refl

handle_conection-Acotado_example :
    Acotado (tras_conexion.actual_multiprog) (tras_conexion.max_multiprog)
handle_conection-Acotado_example =
    handle_conection-Acotado ⦃m = maquina⦄ 5 pedidos vacio tras_conexion (omega arith) conexion_ok

-- The main thread of a process is admitted.
abbrev tras_crear : Suse ⦃m = maquina⦄
tras_crear = estado_de (atender ⦃m = maquina⦄ 5 cop_suse_create (crear 0) vacio)

crear_ok : atender ⦃m = maquina⦄ 5 cop_suse_create (crear 0) vacio ≡ ok tt tras_crear
unfolding atender handle_suse_create esperar_handshake enviar find_process handle_ult_create
    handle_main_thread_create generar_process new_process_object set_process_list ult_create
    get_time_today load_process new_thread_object update_process set_new_queue lock lock_on unlock
    si_hay_lugar validar_grado_multiprogramacion nuevo_a_ejecucion eliminar_ult_cola_actual
    eliminar_de remover_ult_nuevo update_thread set_actual_multiprog load_thread set_thread
    set_process gets modify or_fault pure ◌>>=◌ ◌>>◌ ◌+ℤ◌
crear_ok = refl

atender-Cuenta_example : Cuenta cop_suse_create (pos 0) (pos 1) (pos 1) (pos 1)
unfolding atender handle_suse_create esperar_handshake enviar find_process handle_ult_create
    handle_main_thread_create generar_process new_process_object set_process_list ult_create
    get_time_today load_process new_thread_object update_process set_new_queue lock lock_on unlock
    si_hay_lugar validar_grado_multiprogramacion nuevo_a_ejecucion eliminar_ult_cola_actual
    eliminar_de remover_ult_nuevo update_thread set_actual_multiprog load_thread set_thread
    set_process gets modify or_fault pure ◌>>=◌ ◌>>◌ ◌+ℤ◌
atender-Cuenta_example =
    atender-Cuenta ⦃m = maquina⦄ 5 cop_suse_create (crear 0) vacio tras_crear crear_ok

abbrev sin_semaforos : Suse ⦃m = maquina⦄
sin_semaforos = record vacio { semaphores = λ r. none; semaforos = [] }

init_semaforos-AllBalanced_example :
    (t : Suse ⦃m = maquina⦄) × (init_semaforos ⦃m = maquina⦄
        (("A", "0", "1") ∷ ("B", "0", "2") ∷ [])
        sin_semaforos
      ≡ ok tt t)
    × AllBalanced ⦃m = maquina⦄ t
init_semaforos-AllBalanced_example =
    init_semaforos-AllBalanced ⦃m = maquina⦄ (("A", "0", "1") ∷ ("B", "0", "2") ∷ []) sin_semaforos
      (refl, (refl, tt)) (λ r x e. absurd (none-ne-some x e))
