-- ===== src/Suse/Semaforo/Errores.antt =====
-- The requests that the semaphores of suse.c refuse.
use Prim.Native.String.{String}
use text.Mathlib.Text.{◌==◌ as str_eq}
use tp_sistemas_operativos.Base.{ℕ, ◌≡◌, refl, sym, ap, ◌∙◌, Bool, true, false, if◌then◌else◌}
use tp_sistemas_operativos.Base.Int.{negsuc, eqb_ℤ}
use tp_sistemas_operativos.Commons.{Ref, null, Machine}
use tp_sistemas_operativos.Suse.State.{
  Mutex, same_mutex, mutex_new_queue, mutex_blocked_queue, mutex_exit_queue, mutex_semaforos,
  mutex_multiprog, mutex_process_list, Semaforo, Suse,
}
use tp_sistemas_operativos.Suse.Run.{
  ok, pure, gets, modify, ◌>>◌, semaphore_is, lock, unlock, load_semaphore,
}
use tp_sistemas_operativos.Suse.Eval.{
  bind-ok, then-ok, if-false, if-true, con_mutex, load_semaphore-ok, lock-ok,
}
use tp_sistemas_operativos.Suse.Semaphores.{
  find_semaforo, decrementar_semaforo, incrementar_semaforo, wait_sem, signal_sem,
}
use tp_sistemas_operativos.Suse.Semaforo.{IsNamed, IsNamed-held, find_semaforo-ok}

-- The mutexes held when one is given back.
abbrev sin_mutex : Mutex → (Mutex → Bool) → Mutex → Bool
sin_mutex k held j = if same_mutex j k then false else held j

-- `mutex_semaforos` taken and given back.
ida_y_vuelta :
    (held : Mutex → Bool) (j : Mutex)
    → held mutex_semaforos ≡ false
    → sin_mutex mutex_semaforos (con_mutex mutex_semaforos held) j ≡ held j
ida_y_vuelta held mutex_new_queue h = refl
ida_y_vuelta held mutex_blocked_queue h = refl
ida_y_vuelta held mutex_exit_queue h = refl
ida_y_vuelta held mutex_semaforos h = sym h
ida_y_vuelta held mutex_multiprog h = refl
ida_y_vuelta held mutex_process_list h = refl

module _ ⦃m : Machine⦄ where
  open m use {list_find}

  abbrev con_semaforos : Suse → Suse
  con_semaforos s = record s { held = con_mutex mutex_semaforos s.held }

  devuelto :
      (s : Suse)
      → s.held mutex_semaforos ≡ false
      → (unlock mutex_semaforos >> pure (negsuc 0)) (con_semaforos s) ≡ ok (negsuc 0) s
  unfolding unlock modify pure
  devuelto s h =
      then-ok (unlock mutex_semaforos) _ _ _ tt refl
      ∙ ap (λ held. ok (negsuc 0) (record s { held = held })) (λ i j. ida_y_vuelta s.held j h i)

  wait_rechazado :
      (s : Suse) (socket tid : ℕ) (sem : String)
      → s.held mutex_semaforos ≡ false
      → decrementar_semaforo socket tid sem (con_semaforos s) ≡ ok (negsuc 0) (con_semaforos s)
      → wait_sem socket tid sem s ≡ ok (negsuc 0) s
  unfolding wait_sem
  wait_rechazado s socket tid sem h e =
      then-ok (lock mutex_semaforos) _ s _ tt (lock-ok s mutex_semaforos h)
      ∙ bind-ok (decrementar_semaforo socket tid sem) _ _ _ (negsuc 0) e
      ∙ devuelto s h

  signal_rechazado :
      (s : Suse) (tid : ℕ) (sem : String)
      → s.held mutex_semaforos ≡ false
      → incrementar_semaforo tid sem (con_semaforos s) ≡ ok (negsuc 0) (con_semaforos s)
      → signal_sem tid sem s ≡ ok (negsuc 0) s
  unfolding signal_sem pure
  signal_rechazado s tid sem h e =
      then-ok (lock mutex_semaforos) _ s _ tt (lock-ok s mutex_semaforos h)
      ∙ bind-ok (incrementar_semaforo tid sem) _ _ _ (negsuc 0) e
      ∙ bind-ok (pure (negsuc 0)) _ _ _ (negsuc 0) refl
      ∙ devuelto s h

  -- A wait on, and a signal to, a semaphore that the configuration does not name, with
  -- `mutex_semaforos` free, return -1 and change nothing.
  pub semaforo-desconocido :
      (s : Suse) (socket tid : ℕ) (sem : String)
      → s.held mutex_semaforos ≡ false
      → list_find s.semaforos (semaphore_is s (λ x. str_eq x.name sem)) ≡ null
      → (wait_sem socket tid sem s ≡ ok (negsuc 0) s) × (signal_sem tid sem s ≡ ok (negsuc 0) s)
  unfolding decrementar_semaforo incrementar_semaforo find_semaforo gets pure
  semaforo-desconocido s socket tid sem h e = (
    wait_rechazado s socket tid sem h (bind-ok (find_semaforo sem) _ t t null (ap (λ q. ok q t) e)),
    signal_rechazado s tid sem h (bind-ok (find_semaforo sem) _ t t null (ap (λ q. ok q t) e)),
  )
    where
      t : Suse
      t = con_semaforos s

  -- A signal to a semaphore whose value is its maximum, with `mutex_semaforos` free, returns -1 and
  -- changes nothing.
  pub signal_sem-maximo :
      (s : Suse) (tid : ℕ) (sem : String) (r : Ref) (x : Semaforo)
      → s.held mutex_semaforos ≡ false
      → IsNamed s sem r x
      → eqb_ℤ x.value x.max ≡ true
      → signal_sem tid sem s ≡ ok (negsuc 0) s
  unfolding incrementar_semaforo pure
  signal_sem-maximo s tid sem r x h n e = signal_rechazado s tid sem h (
      bind-ok (find_semaforo sem) _ t t r (find_semaforo-ok t sem r x n')
      ∙ if-false _ _ _ t n.there
      ∙ bind-ok (load_semaphore r) _ t t x (load_semaphore-ok t r x n.has)
      ∙ if-true _ _ _ t e)
    where
      t : Suse
      t = con_semaforos s

      n' : IsNamed t sem r x
      n' = IsNamed-held s _ sem r x n
