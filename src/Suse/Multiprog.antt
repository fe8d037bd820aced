-- ===== src/Suse/Multiprog.antt =====
-- The degree of multiprogramming: what each request does to its counter, and its bound.
pub mod Admision
pub mod Semaforos
pub mod Contador
use Prim.Native.String.{String}
use tp_sistemas_operativos.Base.{
  ℕ, ◌≡◌, ◌∙◌, ap, true, false, Bool, List, [], ◌∷◌, arith, refl, if◌then◌else◌,
}
use tp_sistemas_operativos.Base.Int.{
  ℤ, pos, pos_part, neg_part, eq_of_parts, ◌-ℤ◌, ◌+ℤ◌, ◌≤ℤ◌, leb_ℤ, int_laws,
}
use tp_sistemas_operativos.Commons.{Ref, Machine}
use tp_sistemas_operativos.Suse.State.{
  Cop, cop_suse_create, cop_next_tid, cop_close_tid, cop_wait_sem, cop_signal_sem, cop_suse_join,
  mutex_multiprog, mutex_blocked_queue, Process, Estado, e_ready, e_execute, e_blocked, e_exit,
  e_new, Semaforo, Suse,
}
use tp_sistemas_operativos.Suse.Run.{
  Cmd, ok, pure, ◌>>=◌, ◌>>◌, load_process, load_semaphore, update_semaphore, set_semaphore,
  set_actual_multiprog,
}
use tp_sistemas_operativos.Suse.Logic.{
  After, Ensures, Keeps, Keeps-or_fault, Keeps-gets, Ensures-modify, Ensures-bind, Ensures-then,
  Keeps-bind, Keeps-then, Keeps-pure, Ensures-if, Ensures-map,
}
use tp_sistemas_operativos.Suse.Frame
use tp_sistemas_operativos.Suse.Frame.{Stable, stable_rules}
use tp_sistemas_operativos.Suse.Joins.{desjoinear}
use tp_sistemas_operativos.Suse.Transitions.{
  nuevo_a_listo, nuevo_a_ejecucion, ejecucion_a_bloqueado_por_semaforo, remover_ult_exec,
}
use tp_sistemas_operativos.Suse.Scheduler.{
  si_hay_lugar, handle_ult_create, handle_main_thread_create,
}
use tp_sistemas_operativos.Suse.Semaphores.{
  find_semaforo, incrementar_semaforo, desbloquear_hilos_semaforo, decrementar_semaforo, wait_sem,
  signal_sem,
}
use tp_sistemas_operativos.Suse.Close.{
  obtener_ult_ready_fifo, bajar_multiprog, cerrar_en, liberar_hilos, cerrar_proceso, cerrar_hilo,
  close_tid,
}
use tp_sistemas_operativos.Suse.Requests.{
  Codigo, Pedido, pedido, otro, handle_suse_create, handle_next_tid, handle_close_tid,
  handle_wait_sem, handle_signal_sem, handle_suse_join, atender, handle_conection_suse,
}
use tp_sistemas_operativos.Suse.Multiprog.Admision.{Grado, Grado-Stable}
use tp_sistemas_operativos.Suse.Multiprog.Contador.{tras_pedir, Cuenta, BajaUno, atender-Ensures}

-- A counter that is at most its maximum.
abbrev pub Acotado : ℤ → ℤ → Type 0
Acotado actual max = actual ≤ℤ max

pedir-Acotado :
    (k n : ℤ) (b : Bool)
    → leb_ℤ (k +ℤ pos 1) n ≡ b
    → Acotado k n
    → Acotado (if b then k +ℤ pos 1 else k) n
pedir-Acotado k n true e h = ground arith
pedir-Acotado k n false e h = h

igual-Acotado : (k n actual max : ℤ) → Acotado k n → actual ≡ k → max ≡ n → Acotado actual max
igual-Acotado k n actual max h e f = rw (e, f) h

baja-Acotado : (k n actual max : ℤ) → Acotado k n → BajaUno k n actual max → Acotado actual max
baja-Acotado k n actual max h c = rw c.2 (omega (arith, h, c.0))

Cuenta-Acotado :
    (cop : Cop) (k n actual max : ℤ) → Acotado k n → Cuenta cop k n actual max → Acotado actual max
Cuenta-Acotado cop_suse_create k n actual max h c =
    igual-Acotado (tras_pedir k n) n actual max (pedir-Acotado k n _ refl h) c.0 c.1
Cuenta-Acotado cop_next_tid k n actual max h c = igual-Acotado k n actual max h c.0 c.1
Cuenta-Acotado cop_close_tid k n actual max h c = baja-Acotado k n actual max h c
Cuenta-Acotado cop_wait_sem k n actual max h c = igual-Acotado k n actual max h c.0 c.1
Cuenta-Acotado cop_signal_sem k n actual max h c = igual-Acotado k n actual max h c.0 c.1
Cuenta-Acotado cop_suse_join k n actual max h c = igual-Acotado k n actual max h c.0 c.1

module _ ⦃m : Machine⦄ where
  atender-Acotado :
      (socket : ℕ) (cop : Cop) (r : Pedido) → Keeps (Grado Acotado) (atender socket cop r)
  atender-Acotado socket cop r = record {
    at = λ s h.
        let k = s.actual_multiprog in
        let n = s.max_multiprog in
        (Ensures-map (atender socket cop r)
            (λ t. Cuenta-Acotado cop k n t.actual_multiprog t.max_multiprog h)
            (atender-Ensures k n socket cop r)).at
          s (refl, refl);
  }

  conexion-Acotado :
      (socket : ℕ) (l : List Pedido) → Keeps (Grado Acotado) (handle_conection_suse socket l)
  unfolding handle_conection_suse
  conexion-Acotado socket [] = Keeps-pure tt
  conexion-Acotado socket (r ∷ l) = resto r.codigo (conexion-Acotado socket l)
    where
      resto :
          (c : Codigo)
          → Keeps (Grado Acotado) (handle_conection_suse socket l)
          → Keeps (Grado Acotado) (elim c [
            | otro ↦ pure tt
            | pedido cop ↦ atender socket cop r >> handle_conection_suse socket l
          ])
      resto otro h = Keeps-pure tt
      resto (pedido cop) h = Keeps-then _ _ (atender-Acotado socket cop r) h

  -- If the counter `ACTUAL_MULTIPROG` is at most `MAX_MULTIPROG`, then it still is whenever a
  -- connection returns, whatever requests it brought, in whatever order.
  pub handle_conection-Acotado :
      (socket : ℕ) (l : List Pedido) (s t : Suse)
      → Acotado s.actual_multiprog s.max_multiprog
      → handle_conection_suse socket l s ≡ ok tt t
      → Acotado t.actual_multiprog t.max_multiprog
  handle_conection-Acotado socket l s t h e = rw e at ((conexion-Acotado socket l).at s h)
