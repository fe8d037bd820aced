-- ===== src/Suse/Semaforo/Signal.antt =====
-- The `signal` of a semaphore of suse.c: what it makes of the semaphore.
use Prim.Native.String.{String}
use text.Mathlib.Text.{◌==◌ as str_eq}
use tp_sistemas_operativos.Base.{
  ℕ, ◌≡◌, refl, sym, ap, ◌∙◌, subst, Bool, true, false, some, ◌==◌, fun_ext, arith, if◌then◌else◌,
}
use tp_sistemas_operativos.Base.Int.{ℤ, pos, negsuc, ◌+ℤ◌, eqb_ℤ}
use tp_sistemas_operativos.Commons.{Ref, null, Machine}
use tp_sistemas_operativos.Suse.State.{mutex_semaforos, Semaforo, Suse}
use tp_sistemas_operativos.Suse.Run.{
  Cmd, load_thread, find_process, and_then, ok, pure, ◌>>=◌, ◌>>◌, put_at, load_semaphore,
  update_semaphore, semaphore_is, unlock,
}
use tp_sistemas_operativos.Suse.Eval.{bind-ok, then-ok, if-false, load_semaphore-ok}
use tp_sistemas_operativos.Suse.Logic.{After, Keeps-pure, Ensures-bind, Ensures-then, After-bind}
use tp_sistemas_operativos.Suse.Frame
use tp_sistemas_operativos.Suse.Frame.{Stable, stable_rules}
use tp_sistemas_operativos.Suse.Transitions.{bloqueado_a_listo}
use tp_sistemas_operativos.Suse.Semaphores.{
  find_semaforo, incrementar_semaforo, desbloquear_hilos_semaforo, signal_sem,
}
use tp_sistemas_operativos.Suse.Semaforo.{
  Has, Has-Stable, put_at-same, update_semaphore-ok, update_semaphore-Has, IsNamed,
  find_semaforo-ok, After-lock, IsNamed-held,
}

module _ ⦃m : Machine⦄ where
  open m use {list_find, list_add, list_get, list_remove}

  abbrev pub sumado : Semaforo → Semaforo
  sumado x = record x { value = x.value +ℤ pos 1 }

  abbrev sin_primero : Semaforo → Semaforo
  sin_primero x = record x { blocked_list = list_remove x.blocked_list 0 }

  -- What is left when the first blocked thread, if any, is released.
  abbrev pub liberado : Semaforo → Semaforo
  liberado x = if list_get x.blocked_list 0 == null then x else sin_primero x

  -- What a signal makes of a semaphore.
  abbrev pub tras_signal : Semaforo → Semaforo
  tras_signal x = if eqb_ℤ x.value x.max then x else liberado (sumado x)

  abbrev con_semaforo : Suse → Ref → Semaforo → Suse
  con_semaforo s r x = record s { semaphores = put_at s.semaphores r (some x) }

  -- A change that keeps the name changes no search by name.
  mismo_nombre :
      (s : Suse) (sem : String) (r : Ref) (x y : Semaforo)
      → s.semaphores r ≡ some x
      → y.name ≡ x.name
      → (q : Ref)
      → semaphore_is (con_semaforo s r y) (λ z. str_eq z.name sem) q
        ≡ semaphore_is s (λ z. str_eq z.name sem) q
  mismo_nombre s sem r x y h e q = grind arith

  IsNamed-semaforo :
      (s : Suse) (sem : String) (r : Ref) (x y : Semaforo)
      → IsNamed s sem r x
      → y.name ≡ x.name
      → IsNamed (con_semaforo s r y) sem r y
  IsNamed-semaforo s sem r x y n e = record {
    found = ap (list_find s.semaforos) (fun_ext (mismo_nombre s sem r x y n.has e)) ∙ n.found;
    there = n.there;
    has = put_at-same s.semaphores r (some y);
  }

  liberar-Has :
      (b : Bool) (s : Suse) (r : Ref) (x : Semaforo) (hilo : Ref)
      → Has r x s
      → After
          (λ _. Has r (if b then x else sin_primero x))
          ((if b then pure (pos 0) else (do
            thread ← load_thread hilo
            process ← find_process thread.proceso_id
            bloqueado_a_listo hilo process
            update_semaphore r λ y. record y { blocked_list = list_remove y.blocked_list 0 }
            pure (pos 0)))
            s)
  unfolding pure
  liberar-Has true s r x hilo h = h
  liberar-Has false s r x hilo h =
      (Ensures-bind _ _ (Frame.load_thread-Keeps antes hilo) λ t.
          Ensures-bind _ _ (Frame.find_process-Keeps antes t.proceso_id) λ q.
            Ensures-then _ _ (Frame.bloqueado_a_listo-Keeps antes hilo q)
              (Ensures-then _ _ (update_semaphore-Has r sin_primero x) (Keeps-pure (pos 0)))).at
        s h
    where
      antes : Stable (Has r x)
      antes = Has-Stable r x

  desbloquear-Has :
      (s : Suse) (sem : String) (r : Ref) (x : Semaforo)
      → IsNamed s sem r x
      → After (λ _. Has r (liberado x)) (desbloquear_hilos_semaforo sem s)
  unfolding desbloquear_hilos_semaforo
  desbloquear-Has s sem r x n =
      subst (After (λ _. Has r (liberado x)))
        (sym (
          bind-ok (find_semaforo sem) _ s s r (find_semaforo-ok s sem r x n)
          ∙ bind-ok (load_semaphore r) _ s s x (load_semaphore-ok s r x n.has)))
        (liberar-Has (list_get x.blocked_list 0 == null) s r x _ n.has)

  -- What `signal_sem` does behind the increment.
  abbrev tras_incrementar : String → ℤ → Cmd ℤ
  tras_incrementar sem incrementado = do
    resultado ←
        if eqb_ℤ incrementado (negsuc 0) then pure incrementado else desbloquear_hilos_semaforo sem
    unlock mutex_semaforos
    pure resultado

  abbrev incremento : Bool → Ref → Cmd ℤ
  incremento b r =
      if b
      then pure (negsuc 0)
      else (do update_semaphore r λ y. record y { value = y.value +ℤ pos 1 }; pure (pos 0))

  incrementar-ok :
      (s : Suse) (tid : ℕ) (sem : String) (r : Ref) (x : Semaforo)
      → IsNamed s sem r x
      → incrementar_semaforo tid sem s ≡ incremento (eqb_ℤ x.value x.max) r s
  unfolding incrementar_semaforo
  incrementar-ok s tid sem r x n =
      bind-ok (find_semaforo sem) _ s s r (find_semaforo-ok s sem r x n)
      ∙ if-false _ _ _ s n.there
      ∙ bind-ok (load_semaphore r) _ s s x (load_semaphore-ok s r x n.has)

  tras_incrementar-Has :
      (b : Bool) (s : Suse) (sem : String) (r : Ref) (x : Semaforo)
      → IsNamed s sem r x
      → After
          (λ _. Has r (if b then x else liberado (sumado x)))
          ((incremento b r >>= tras_incrementar sem) s)
  unfolding pure
  tras_incrementar-Has true s sem r x n =
      subst (After (λ _. Has r x)) (sym (bind-ok (incremento true r) _ s s (negsuc 0) refl)) (
        (Ensures-bind _ _ (Keeps-pure (negsuc 0)) λ z.
            Ensures-then _ _ (Frame.unlock-Keeps (Has-Stable r x) mutex_semaforos)
              (Keeps-pure z)).at
          s n.has)
  tras_incrementar-Has false s sem r x n =
      subst (After (λ _. Has r (liberado (sumado x))))
        (sym (
          bind-ok (incremento false r) _ s (con_semaforo s r (sumado x)) (pos 0)
            (then-ok _ _ s _ tt (update_semaphore-ok r sumado x s n.has))))
        (After-bind _ _ _
          (desbloquear-Has _ sem r (sumado x) (IsNamed-semaforo s sem r x (sumado x) n refl))
          λ z.
            Ensures-then _ _
              (Frame.unlock-Keeps (Has-Stable r (liberado (sumado x))) mutex_semaforos)
              (Keeps-pure z))

  signal_sem-Has :
      (s : Suse) (tid : ℕ) (sem : String) (r : Ref) (x : Semaforo)
      → IsNamed s sem r x
      → After (λ _. Has r (tras_signal x)) (signal_sem tid sem s)
  unfolding signal_sem ◌>>=◌
  signal_sem-Has s tid sem r x n = After-lock mutex_semaforos _ _ s (
      subst (λ z. After (λ _. Has r (tras_signal x)) (and_then z (tras_incrementar sem)))
        (sym (incrementar-ok _ tid sem r x (IsNamed-held s _ sem r x n)))
        (tras_incrementar-Has (eqb_ℤ x.value x.max) _ sem r x (IsNamed-held s _ sem r x n)))

  -- When a signal to a semaphore of the configuration returns, it left it as it was if its value is
  -- at the maximum; otherwise its value is one more, and the first of the threads it blocks, if
  -- there is one, is taken off its list.
  pub signal_sem-tras_signal :
      (s t : Suse) (tid : ℕ) (sem : String) (r : Ref) (x : Semaforo) (z : ℤ)
      → IsNamed s sem r x
      → signal_sem tid sem s ≡ ok z t
      → t.semaphores r ≡ some (tras_signal x)
  signal_sem-tras_signal s t tid sem r x z n e = rw e at (signal_sem-Has s tid sem r x n)
