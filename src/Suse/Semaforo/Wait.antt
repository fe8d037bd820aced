-- ===== src/Suse/Semaforo/Wait.antt =====
-- The `wait` of a semaphore of suse.c: what it makes of the semaphore.
use Prim.Native.String.{String}
use tp_sistemas_operativos.Base.{ℕ, ◌≡◌, sym, ◌∙◌, subst, Bool, true, false, some, if◌then◌else◌}
use tp_sistemas_operativos.Base.Int.{ℤ, pos, ◌-ℤ◌, leb_ℤ}
use tp_sistemas_operativos.Commons.{Ref, Machine}
use tp_sistemas_operativos.Suse.State.{mutex_semaforos, mutex_blocked_queue, Semaforo, Suse}
use tp_sistemas_operativos.Suse.Run.{ok, pure, load_semaphore}
use tp_sistemas_operativos.Suse.Eval.{
  bind-ok, if-false, load_process-ok, load_semaphore-ok, find_process-ok, find_thread-ok,
}
use tp_sistemas_operativos.Suse.Logic.{After, Keeps-pure, Ensures-then, After-then, After-bind}
use tp_sistemas_operativos.Suse.Frame
use tp_sistemas_operativos.Suse.Frame.{Stable, stable_rules}
use tp_sistemas_operativos.Suse.Transitions.{ejecucion_a_bloqueado_por_semaforo, remover_ult_exec}
use tp_sistemas_operativos.Suse.Semaphores.{find_semaforo, decrementar_semaforo, wait_sem}
use tp_sistemas_operativos.Suse.Semaforo.{
  Has, Has-Stable, update_semaphore-Has, IsNamed, IsCaller, find_semaforo-ok, After-lock,
  IsNamed-held, IsCaller-held,
}

module _ ⦃m : Machine⦄ where
  open m use {list_find, list_add, list_get, list_remove}

  abbrev pub con_hilo : Ref → Semaforo → Semaforo
  con_hilo hilo x = record x { blocked_list = list_add x.blocked_list hilo }

  abbrev pub restado : Semaforo → Semaforo
  restado x = record x { value = x.value -ℤ pos 1 }

  -- What a wait of the thread `hilo` makes of a semaphore.
  abbrev pub tras_wait : Ref → Semaforo → Semaforo
  tras_wait hilo x = restado (if leb_ℤ x.value (pos 0) then con_hilo hilo x else x)

  bloquear-Has :
      (s : Suse) (socket tid : ℕ) (r hilo : Ref) (x : Semaforo)
      → IsCaller s socket tid hilo
      → Has r x s
      → After (λ _. Has r (con_hilo hilo x)) (ejecucion_a_bloqueado_por_semaforo tid socket r s)
  unfolding ejecucion_a_bloqueado_por_semaforo remover_ult_exec
  bloquear-Has s socket tid r hilo x c h =
      subst (After (λ _. Has r (con_hilo hilo x)))
        (sym (
          bind-ok _ _ s s c.q (find_process-ok s socket c.q c.owner)
          ∙ bind-ok _ _ s s c.p (load_process-ok s c.q c.p c.process)
          ∙ bind-ok _ _ s s hilo (find_thread-ok s c.p tid hilo c.thread)))
        ((Ensures-then _ _ (Frame.cerrar_rafaga-Keeps antes hilo) (
            Ensures-then _ _ (Frame.update_process-Keeps antes c.q _) (
              Ensures-then _ _ (Frame.update_thread-Keeps antes hilo _) (
                Ensures-then _ _ (update_semaphore-Has r _ x) (
                  Ensures-then _ _ (Frame.lock-Keeps despues mutex_blocked_queue) (
                    Ensures-then _ _ (Frame.set_blocked_queue-Keeps despues _)
                      (Frame.unlock-Keeps despues mutex_blocked_queue))))))).at
          s h)
    where
      antes : Stable (Has r x)
      antes = Has-Stable r x

      despues : Stable (Has r (con_hilo hilo x))
      despues = Has-Stable r (con_hilo hilo x)

  bloqueo-Has :
      (b : Bool) (s : Suse) (socket tid : ℕ) (r hilo : Ref) (x : Semaforo)
      → IsCaller s socket tid hilo
      → Has r x s
      → After
          (λ _. Has r (if b then con_hilo hilo x else x))
          ((if b then ejecucion_a_bloqueado_por_semaforo tid socket r else pure tt) s)
  unfolding pure
  bloqueo-Has true s socket tid r hilo x c h = bloquear-Has s socket tid r hilo x c h
  bloqueo-Has false s socket tid r hilo x c h = h

  decrementar-Has :
      (s : Suse) (socket tid : ℕ) (sem : String) (r hilo : Ref) (x : Semaforo)
      → IsNamed s sem r x
      → IsCaller s socket tid hilo
      → After (λ _. Has r (tras_wait hilo x)) (decrementar_semaforo socket tid sem s)
  unfolding decrementar_semaforo
  decrementar-Has s socket tid sem r hilo x n c =
      subst (After (λ _. Has r (tras_wait hilo x)))
        (sym (
          bind-ok (find_semaforo sem) _ s s r (find_semaforo-ok s sem r x n)
          ∙ if-false _ _ _ s n.there
          ∙ bind-ok (load_semaphore r) _ s s x (load_semaphore-ok s r x n.has)))
        (After-then _ _ s (bloqueo-Has (leb_ℤ x.value (pos 0)) s socket tid r hilo x c n.has)
          (Ensures-then _ _ (update_semaphore-Has r restado _) (Keeps-pure (pos 0))))

  wait_sem-Has :
      (s : Suse) (socket tid : ℕ) (sem : String) (r hilo : Ref) (x : Semaforo)
      → IsNamed s sem r x
      → IsCaller s socket tid hilo
      → After (λ _. Has r (tras_wait hilo x)) (wait_sem socket tid sem s)
  unfolding wait_sem
  wait_sem-Has s socket tid sem r hilo x n c = After-lock mutex_semaforos _ _ s (
      After-bind _ _ _
        (decrementar-Has _ socket tid sem r hilo x (IsNamed-held s _ sem r x n)
          (IsCaller-held s _ socket tid hilo c))
        λ z.
          Ensures-then _ _ (Frame.unlock-Keeps (Has-Stable r (tras_wait hilo x)) mutex_semaforos)
            (Keeps-pure z))

  -- When a wait on a semaphore of the configuration, by a thread of the program, returns, it left
  -- the semaphore with its value one less, and, if the value was not positive, with the thread at
  -- the end of the list of those it blocks.
  pub wait_sem-tras_wait :
      (s t : Suse) (socket tid : ℕ) (sem : String) (r hilo : Ref) (x : Semaforo) (z : ℤ)
      → IsNamed s sem r x
      → IsCaller s socket tid hilo
      → wait_sem socket tid sem s ≡ ok z t
      → t.semaphores r ≡ some (tras_wait hilo x)
  wait_sem-tras_wait s t socket tid sem r hilo x z n c e =
      rw e at (wait_sem-Has s socket tid sem r hilo x n c)
