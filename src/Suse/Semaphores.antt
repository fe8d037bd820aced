-- ===== src/Suse/Semaphores.antt =====
-- The semaphores that suse.c offers to programs.
use Prim.Native.String.{String}
use text.Mathlib.Text.{◌==◌ as str_eq}
use tp_sistemas_operativos.Base.{ℕ, ◌==◌, List, [], ◌∷◌, if◌then◌else◌}
use tp_sistemas_operativos.Base.Int.{ℤ, pos, negsuc, ◌+ℤ◌, ◌-ℤ◌, leb_ℤ, eqb_ℤ}
use tp_sistemas_operativos.Commons.{Ref, null, Machine}
use tp_sistemas_operativos.Suse.State.{mutex_semaforos}
use tp_sistemas_operativos.Suse.Run.{
  Cmd, pure, gets, ◌>>=◌, ◌>>◌, set_semaforos, load_thread, load_semaphore, update_semaphore,
  new_semaphore_object, lock, unlock, semaphore_is, find_process,
}
use tp_sistemas_operativos.Suse.Transitions.{bloqueado_a_listo, ejecucion_a_bloqueado_por_semaforo}

module _ ⦃m : Machine⦄ where
  open m use {list_add, list_get, list_find, list_remove, atoi}

  -- `init_semaforos`, over the entries of `SEM_IDS`, `SEM_INIT` and `SEM_MAX`.
  unfoldable pub init_semaforos : List (String × String × String) → Cmd (Unit {0})
  init_semaforos [] = pure tt
  init_semaforos ((id, init, max) ∷ rest) = do
    semaforo ← new_semaphore_object (record {
      name = id;
      init = atoi init;
      max = atoi max;
      value = atoi init;
      blocked_list = [];
    })
    set_semaforos λ s. list_add s.semaforos semaforo
    init_semaforos rest

  -- `list_find(configuracion_suse.semaforos, …)` by name, or `NULL`.
  unfoldable pub find_semaforo : String → Cmd Ref
  find_semaforo sem = gets λ s. list_find s.semaforos (semaphore_is s (λ x. str_eq x.name sem))

  unfoldable pub incrementar_semaforo : ℕ → String → Cmd ℤ
  incrementar_semaforo tid sem = do
    semaforo ← find_semaforo sem
    if semaforo == null then pure (negsuc 0) else do
      x ← load_semaphore semaforo
      if eqb_ℤ x.value x.max
          then pure (negsuc 0)
          else do update_semaphore semaforo λ y. record y { value = y.value +ℤ pos 1 }; pure (pos 0)

  unfoldable pub desbloquear_hilos_semaforo : String → Cmd ℤ
  desbloquear_hilos_semaforo sem = do
    semaforo ← find_semaforo sem
    x ← load_semaphore semaforo
    if list_get x.blocked_list 0 == null then pure (pos 0) else do
      thread ← load_thread (list_get x.blocked_list 0)
      process ← find_process thread.proceso_id
      bloqueado_a_listo (list_get x.blocked_list 0) process
      update_semaphore semaforo λ y. record y { blocked_list = list_remove y.blocked_list 0 }
      pure (pos 0)

  unfoldable pub decrementar_semaforo : ℕ → ℕ → String → Cmd ℤ
  decrementar_semaforo socket_actual tid sem_name = do
    semaforo ← find_semaforo sem_name
    if semaforo == null then pure (negsuc 0) else do
      x ← load_semaphore semaforo
      if leb_ℤ x.value (pos 0)
          then ejecucion_a_bloqueado_por_semaforo tid socket_actual semaforo
          else pure tt
      update_semaphore semaforo λ y. record y { value = y.value -ℤ pos 1 }
      pure (pos 0)

  -- What `handle_wait_sem` does between the request and the answer.
  unfoldable pub wait_sem : ℕ → ℕ → String → Cmd ℤ
  wait_sem socket_actual tid sem = do
    lock mutex_semaforos
    resultado ← decrementar_semaforo socket_actual tid sem
    unlock mutex_semaforos
    pure resultado

  -- What `handle_signal_sem` does between the request and the answer.
  unfoldable pub signal_sem : ℕ → String → Cmd ℤ
  signal_sem tid sem = do
    lock mutex_semaforos
    incrementado ← incrementar_semaforo tid sem
    resultado ←
        if eqb_ℤ incrementado (negsuc 0) then pure incrementado else desbloquear_hilos_semaforo sem
    unlock mutex_semaforos
    pure resultado
