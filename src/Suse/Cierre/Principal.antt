-- ===== src/Suse/Cierre/Principal.antt =====
-- `close_tid` of suse.c for the main thread, which ends its process.
use tp_sistemas_operativos.Base.{
  ℕ, ◌≡◌, refl, sym, ◌∙◌, subst, true, some, none, List, [], ◌∷◌, ◌==◌,
}
use tp_sistemas_operativos.Base.Int.{ℤ}
use tp_sistemas_operativos.Commons.{Ref, Machine}
use tp_sistemas_operativos.Suse.State.{Process, Thread, Suse}
use tp_sistemas_operativos.Suse.Run.{ok, process_is, thread_is}
use tp_sistemas_operativos.Suse.Eval.{
  bind-ok, if-true, load_thread-ok, load_process-ok, find_process-ok, find_thread-ok,
}
use tp_sistemas_operativos.Suse.Logic.{After, Keeps, Keeps-pure, Keeps-gets, Keeps-bind, Keeps-then}
use tp_sistemas_operativos.Suse.Frame
use tp_sistemas_operativos.Suse.Frame.{Stable, stable_rules}
use tp_sistemas_operativos.Suse.Multiprog.Admision.{Grado-Stable}
use tp_sistemas_operativos.Suse.Close.{close_tid, liberar_hilos, cerrar_proceso}

module _ ⦃m : Machine⦄ where
  open m use {list_find}

  -- The process of the socket, and its thread with the tid, which is the main thread.
  pub record IsMainThread (s : Suse) (socket tid : ℕ) (q r : Ref) (p : Process) (t : Thread)
      : Type 0 where
    pub owner : list_find s.process (process_is s (λ o. o.process_id == socket)) ≡ q
    pub process : s.processes q ≡ some p
    pub found : list_find p.ults (thread_is s (λ u. u.tid == tid)) ≡ r
    pub thread : s.threads r ≡ some t
    pub main : (t.tid == 0) ≡ true

  cuenta : (n : ℤ) → Stable (λ s. s.actual_multiprog ≡ n)
  cuenta n = Grado-Stable (λ actual max. actual ≡ n)

  liberar_hilos-Keeps :
      (n : ℤ) (l : List Ref) → Keeps (λ s. s.actual_multiprog ≡ n) (liberar_hilos l)
  unfolding liberar_hilos
  liberar_hilos-Keeps n [] = Keeps-pure tt
  liberar_hilos-Keeps n (r ∷ l) =
      Keeps-then _ _ (Frame.load_thread-Keeps (cuenta n) r)
        (Keeps-then _ _ (Frame.set_thread-Keeps (cuenta n) r none) (liberar_hilos-Keeps n l))

  cerrar_proceso-Keeps :
      (n : ℤ) (p : Process) (socket : ℕ)
      → Keeps (λ s. s.actual_multiprog ≡ n) (cerrar_proceso p socket)
  unfolding cerrar_proceso
  cerrar_proceso-Keeps n p socket = Keeps-then _ _ (liberar_hilos-Keeps n p.ults) (
      Keeps-bind _ _ (Keeps-gets _) λ es. Keeps-bind _ _ (Keeps-gets _) λ q.
        Keeps-then _ _ (Frame.set_process_list-Keeps (cuenta n) _)
          (Keeps-then _ _ (Frame.set_process-Keeps (cuenta n) q none) (Keeps-pure _)))

  -- When `close_tid` of a main thread returns, the count of admitted threads is what it was: those of
  -- the process that ended stay counted.
  pub close_tid-cuenta :
      (s s' : Suse) (socket tid : ℕ) (q r : Ref) (p : Process) (t : Thread) (z : ℤ)
      → IsMainThread s socket tid q r p t
      → close_tid tid socket s ≡ ok z s'
      → s'.actual_multiprog ≡ s.actual_multiprog
  unfolding close_tid
  close_tid-cuenta s s' socket tid q r p t z h e =
      subst (After (λ _ x. x.actual_multiprog ≡ s.actual_multiprog)) (sym cierre ∙ e)
        ((cerrar_proceso-Keeps s.actual_multiprog p socket).at s refl)
    where
      cierre : close_tid tid socket s ≡ cerrar_proceso p socket s
      cierre =
          bind-ok _ _ s s q (find_process-ok s socket q h.owner)
          ∙ bind-ok _ _ s s p (load_process-ok s q p h.process)
          ∙ bind-ok _ _ s s r (find_thread-ok s p tid r h.found)
          ∙ bind-ok _ _ s s t (load_thread-ok s r t h.thread)
          ∙ if-true _ _ _ s h.main
