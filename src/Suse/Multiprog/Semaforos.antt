-- ===== src/Suse/Multiprog/Semaforos.antt =====
-- The requests of suse.c on semaphores, joins and the next thread: none of them changes the degree
-- of multiprogramming.
use Prim.Native.String.{String}
use tp_sistemas_operativos.Base.{ℕ}
use tp_sistemas_operativos.Base.Int.{ℤ}
use tp_sistemas_operativos.Commons.{Ref, Machine}
use tp_sistemas_operativos.Suse.State.{Semaforo}
use tp_sistemas_operativos.Suse.Run.{load_semaphore, update_semaphore, set_semaphore}
use tp_sistemas_operativos.Suse.Logic.{Keeps, Keeps-or_fault, Ensures-modify, Keeps-bind}
use tp_sistemas_operativos.Suse.Frame
use tp_sistemas_operativos.Suse.Frame.{Stable, stable_rules}
use tp_sistemas_operativos.Suse.Transitions.{ejecucion_a_bloqueado_por_semaforo, remover_ult_exec}
use tp_sistemas_operativos.Suse.Semaphores.{
  find_semaforo, incrementar_semaforo, desbloquear_hilos_semaforo, decrementar_semaforo, wait_sem,
  signal_sem,
}
use tp_sistemas_operativos.Suse.Requests.{
  Pedido, handle_next_tid, handle_wait_sem, handle_signal_sem, handle_suse_join,
}
use tp_sistemas_operativos.Suse.Multiprog.Admision.{Grado, Grado-Stable}

module _ ⦃m : Machine⦄ (Q : ℤ → ℤ → Type 0) where
  firme : Stable (Grado Q)
  firme = Grado-Stable Q

  load_semaphore-Grado : (r : Ref) → Keeps (Grado Q) (load_semaphore r)
  unfolding load_semaphore
  load_semaphore-Grado r = record { at = λ s. (Keeps-or_fault (s.semaphores r)).at s }

  update_semaphore-Grado :
      (r : Ref) (f : Semaforo → Semaforo) → Keeps (Grado Q) (update_semaphore r f)
  unfolding update_semaphore set_semaphore
  update_semaphore-Grado r f =
      Keeps-bind _ _ (load_semaphore-Grado r) (λ x. Ensures-modify _ (λ s h. h))

  bloquear-Grado :
      (tid socket : ℕ) (r : Ref) → Keeps (Grado Q) (ejecucion_a_bloqueado_por_semaforo tid socket r)
  unfolding ejecucion_a_bloqueado_por_semaforo remover_ult_exec
  bloquear-Grado tid socket r =
      search (stable_rules, firme, Frame.cerrar_rafaga-Keeps, update_semaphore-Grado) depth 20

  wait_sem-Grado : (socket tid : ℕ) (sem : String) → Keeps (Grado Q) (wait_sem socket tid sem)
  unfolding wait_sem decrementar_semaforo find_semaforo
  wait_sem-Grado socket tid sem =
      search (stable_rules, firme, load_semaphore-Grado, update_semaphore-Grado, bloquear-Grado)
        depth 20

  signal_sem-Grado : (tid : ℕ) (sem : String) → Keeps (Grado Q) (signal_sem tid sem)
  unfolding signal_sem incrementar_semaforo desbloquear_hilos_semaforo find_semaforo
  signal_sem-Grado tid sem =
      search
        (
          stable_rules, firme, load_semaphore-Grado, update_semaphore-Grado,
          Frame.bloqueado_a_listo-Keeps,
        )
        depth 20

  pub handle_next_tid-Grado : (socket : ℕ) (r : Pedido) → Keeps (Grado Q) (handle_next_tid socket r)
  unfolding handle_next_tid
  handle_next_tid-Grado socket r =
      search
        (stable_rules, firme, Frame.esperar_handshake-Keeps, Frame.obtener_proximo_ejecutar-Keeps)
        depth 20

  pub handle_wait_sem-Grado : (socket : ℕ) (r : Pedido) → Keeps (Grado Q) (handle_wait_sem socket r)
  unfolding handle_wait_sem
  handle_wait_sem-Grado socket r =
      search (stable_rules, firme, Frame.esperar_handshake-Keeps, wait_sem-Grado) depth 20

  pub handle_signal_sem-Grado :
      (socket : ℕ) (r : Pedido) → Keeps (Grado Q) (handle_signal_sem socket r)
  unfolding handle_signal_sem
  handle_signal_sem-Grado socket r =
      search (stable_rules, firme, Frame.esperar_handshake-Keeps, signal_sem-Grado) depth 20

  pub handle_suse_join-Grado :
      (socket : ℕ) (r : Pedido) → Keeps (Grado Q) (handle_suse_join socket r)
  unfolding handle_suse_join
  handle_suse_join-Grado socket r =
      search (stable_rules, firme, Frame.esperar_handshake-Keeps, Frame.join-Keeps) depth 20
