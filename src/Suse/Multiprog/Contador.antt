-- ===== src/Suse/Multiprog/Contador.antt =====
-- What each request of suse.c does to `ACTUAL_MULTIPROG`.
use tp_sistemas_operativos.Base.{ℕ, ◌≡◌, ap, true, false, Bool, List, [], ◌∷◌, refl, if◌then◌else◌}
use tp_sistemas_operativos.Base.Int.{ℤ, pos, pos_part, neg_part, ◌-ℤ◌, ◌+ℤ◌, ◌≤ℤ◌, leb_ℤ, int_laws}
use tp_sistemas_operativos.Commons.{Ref, Machine}
use tp_sistemas_operativos.Suse.State.{
  Cop, cop_suse_create, cop_next_tid, cop_close_tid, cop_wait_sem, cop_signal_sem, cop_suse_join,
  mutex_multiprog, mutex_blocked_queue, Process, Estado, e_ready, e_execute, e_blocked, e_exit,
  e_new, Suse,
}
use tp_sistemas_operativos.Suse.Run.{Cmd, ok, pure}
use tp_sistemas_operativos.Suse.Logic.{
  Ensures, Keeps, Keeps-gets, Ensures-bind, Ensures-then, Keeps-then, Keeps-pure, Ensures-if,
  Ensures-map,
}
use tp_sistemas_operativos.Suse.Frame
use tp_sistemas_operativos.Suse.Frame.{Stable, stable_rules}
use tp_sistemas_operativos.Suse.Joins.{desjoinear}
use tp_sistemas_operativos.Suse.Scheduler.{
  si_hay_lugar, handle_ult_create, handle_main_thread_create,
}
use tp_sistemas_operativos.Suse.Close.{
  obtener_ult_ready_fifo, bajar_multiprog, cerrar_en, liberar_hilos, cerrar_proceso, cerrar_hilo,
  close_tid,
}
use tp_sistemas_operativos.Suse.Requests.{Pedido, handle_suse_create, handle_close_tid, atender}
use tp_sistemas_operativos.Suse.Multiprog.Admision.{
  Grado, Grado-Stable, Admite, ult_listo-Admite, main_ejecuta-Admite, obtener-Grado, bajar-Grado,
  si_hay_lugar-Ensures,
}
use tp_sistemas_operativos.Suse.Multiprog.Semaforos.{
  handle_next_tid-Grado, handle_wait_sem-Grado, handle_signal_sem-Grado, handle_suse_join-Grado,
}

-- The counter after a thread asks to be admitted: one more if it does not pass the maximum.
abbrev pub tras_pedir : ℤ → ℤ → ℤ
tras_pedir actual max = if leb_ℤ (actual +ℤ pos 1) max then actual +ℤ pos 1 else actual

tras_pedir-con :
    (actual max k n : ℤ)
    → actual ≡ k
    → max ≡ n
    → leb_ℤ (actual +ℤ pos 1) max ≡ true
    → actual +ℤ pos 1 ≡ tras_pedir k n
tras_pedir-con actual max k n h h' e = rw (← h, ← h', e) refl

tras_pedir-sin :
    (actual max k n : ℤ)
    → actual ≡ k
    → max ≡ n
    → leb_ℤ (actual +ℤ pos 1) max ≡ false
    → actual ≡ tras_pedir k n
tras_pedir-sin actual max k n h h' e = rw (← h, ← h', e) refl

-- The counter and its maximum are those given.
abbrev Son : ℤ → ℤ → ℤ → ℤ → Type 0
Son k n actual max = (actual ≡ k) × (max ≡ n)

-- One less than given.
abbrev UnoMenos : ℤ → ℤ → ℤ → ℤ → Type 0
UnoMenos k n actual max = (actual +ℤ pos 1 ≤ℤ k) × (k ≤ℤ actual +ℤ pos 1) × (max ≡ n)

-- As given, or one less.
abbrev pub BajaUno : ℤ → ℤ → ℤ → ℤ → Type 0
BajaUno k n actual max = (actual ≤ℤ k) × (k ≤ℤ actual +ℤ pos 1) × (max ≡ n)

-- What a request makes of the counter `k` and the maximum `n`: a creation asks for the admission of
-- one thread, an end lowers the counter by at most one, and the others leave it as it is.
abbrev pub Cuenta : Cop → ℤ → ℤ → ℤ → ℤ → Type 0
Cuenta cop_suse_create k n = Son (tras_pedir k n) n
Cuenta cop_close_tid k n = BajaUno k n
Cuenta _ k n = Son k n

module _ (k n : ℤ) where
  baja : (actual max : ℤ) → Son k n actual max → UnoMenos k n (actual -ℤ pos 1) max
  baja actual max h = (
    omega (int_laws, ap pos_part h.0, ap neg_part h.0),
    omega (int_laws, ap pos_part h.0, ap neg_part h.0),
    h.1,
  )

  sube : (actual max : ℤ) → UnoMenos k n actual max → BajaUno k n (actual +ℤ pos 1) max
  sube actual max h = (h.0, omega (int_laws, h.1), h.2)

  queda : (actual max : ℤ) → UnoMenos k n actual max → BajaUno k n actual max
  queda actual max h = (omega (int_laws, h.0), h.1, h.2)

  igual : (actual max : ℤ) → Son k n actual max → BajaUno k n actual max
  igual actual max h = (
    omega (int_laws, ap pos_part h.0, ap neg_part h.0),
    omega (int_laws, ap pos_part h.0, ap neg_part h.0),
    h.1,
  )

module _ ⦃m : Machine⦄ (k n : ℤ) where
  son : Stable (Grado (Son k n))
  son = Grado-Stable (Son k n)

  restado : Stable (Grado (UnoMenos k n))
  restado = Grado-Stable (UnoMenos k n)

  pedida : Stable (Grado (Son (tras_pedir k n) n))
  pedida = Grado-Stable (Son (tras_pedir k n) n)

  bajo : Stable (Grado (BajaUno k n))
  bajo = Grado-Stable (BajaUno k n)

  admitir :
      (c : Cmd (Unit {0}))
      → Admite c
      → Ensures (Grado (Son k n)) (si_hay_lugar c) (Grado (Son (tras_pedir k n) n))
  admitir c hc =
      si_hay_lugar-Ensures c (Grado (Son k n)) (Grado (Son (tras_pedir k n) n))
        (λ s h e.
          (hc.por (Son (tras_pedir k n) n)).at s
            (tras_pedir-con s.actual_multiprog s.max_multiprog k n h.0 h.1 e, h.1))
        (λ s h e. (tras_pedir-sin s.actual_multiprog s.max_multiprog k n h.0 h.1 e, h.1))

  reponer :
      Ensures (Grado (UnoMenos k n)) (si_hay_lugar obtener_ult_ready_fifo) (Grado (BajaUno k n))
  reponer =
      si_hay_lugar-Ensures obtener_ult_ready_fifo (Grado (UnoMenos k n)) (Grado (BajaUno k n))
        (λ s h e. (obtener-Grado (UnoMenos k n) (BajaUno k n) (sube k n) (queda k n)).at s h)
        (λ s h e. queda k n s.actual_multiprog s.max_multiprog h)

  bajar_uno : Ensures (Grado (Son k n)) bajar_multiprog (Grado (UnoMenos k n))
  bajar_uno = bajar-Grado (Son k n) (UnoMenos k n) (baja k n)

  sin_bajar :
      {A : Type 0} (c : Cmd A)
      → Keeps (Grado (Son k n)) c
      → Ensures (Grado (Son k n)) c (Grado (BajaUno k n))
  sin_bajar c h = Ensures-map c (λ s. igual k n s.actual_multiprog s.max_multiprog) h

  crear_hilo-Cuenta :
      (q : Ref) (tid : ℕ)
      → Ensures (Grado (Son k n)) (handle_ult_create q tid) (Grado (Son (tras_pedir k n) n))
  unfolding handle_ult_create
  crear_hilo-Cuenta q tid = Ensures-bind _ _ (Frame.ult_create-Keeps son q tid) λ hilo.
      Ensures-then _ _ (Frame.lock-Keeps son mutex_multiprog) (
        Ensures-then _ _ (admitir _ (ult_listo-Admite hilo q))
          (Frame.unlock-Keeps pedida mutex_multiprog))

  crear_proceso-Cuenta :
      (socket tid : ℕ)
      → Ensures
          (Grado (Son k n))
          (handle_main_thread_create socket tid)
          (Grado (Son (tras_pedir k n) n))
  unfolding handle_main_thread_create
  crear_proceso-Cuenta socket tid = Ensures-bind _ _ (Frame.generar_process-Keeps son socket) λ p.
      Ensures-then _ _ (Frame.set_process_list-Keeps son (λ x. m.list_add x.process p)) (
        Ensures-bind _ _ (Frame.ult_create-Keeps son p tid) λ hilo.
          Ensures-then _ _ (Frame.lock-Keeps son mutex_multiprog) (
            Ensures-then _ _ (admitir _ (main_ejecuta-Admite hilo p))
              (Frame.unlock-Keeps pedida mutex_multiprog)))

  crear-Cuenta :
      (socket : ℕ) (r : Pedido)
      → Ensures (Grado (Son k n)) (handle_suse_create socket r) (Grado (Son (tras_pedir k n) n))
  unfolding handle_suse_create
  crear-Cuenta socket r =
      Ensures-then _ _ (Frame.esperar_handshake-Keeps son socket r.inicio cop_suse_create) (
        Ensures-bind _ _ (Frame.find_process-Keeps son socket) λ q.
          Ensures-bind _ _ (Keeps-gets _) λ cantidad.
            Ensures-if _ _ _ (λ e. crear_hilo-Cuenta q r.tid)
              (λ e. crear_proceso-Cuenta socket r.tid))

  cerrar_nuevo-Son : (r q : Ref) (socket : ℕ) → Keeps (Grado (Son k n)) (cerrar_en e_new r q socket)
  unfolding cerrar_en
  cerrar_nuevo-Son r q socket = search (stable_rules, son, Frame.nuevo_a_exit-Keeps) depth 20

  cerrar_en-Cuenta :
      (e : Estado) (r q : Ref) (socket : ℕ)
      → Ensures (Grado (Son k n)) (cerrar_en e r q socket) (Grado (BajaUno k n))
  unfolding cerrar_en
  cerrar_en-Cuenta e_new r q socket = sin_bajar _ (cerrar_nuevo-Son r q socket)
  cerrar_en-Cuenta e_blocked r q socket =
      Ensures-then _ _ (Frame.lock-Keeps son mutex_blocked_queue) (
        Ensures-then _ _ (Frame.lock-Keeps son mutex_multiprog) (
          Ensures-then _ _ bajar_uno (
            Ensures-then _ _ (Frame.bloqueado_a_exit-Keeps restado r socket) (
              Ensures-then _ _ reponer (
                Ensures-then _ _ (Frame.unlock-Keeps bajo mutex_multiprog)
                  (Frame.unlock-Keeps bajo mutex_blocked_queue))))))
  cerrar_en-Cuenta e_ready r q socket = Ensures-then _ _ (Frame.lock-Keeps son mutex_multiprog) (
      Ensures-then _ _ bajar_uno (
        Ensures-then _ _ (Frame.listo_a_exit-Keeps restado r socket)
          (Ensures-then _ _ reponer (Frame.unlock-Keeps bajo mutex_multiprog))))
  cerrar_en-Cuenta e_execute r q socket = Ensures-then _ _ (Frame.lock-Keeps son mutex_multiprog) (
      Ensures-then _ _ (Frame.update_process-Keeps son q _) (
        Ensures-then _ _ (Frame.ejecucion_a_exit-Keeps son r socket) (
          Ensures-then _ _ bajar_uno
            (Ensures-then _ _ reponer (Frame.unlock-Keeps bajo mutex_multiprog)))))
  cerrar_en-Cuenta e_exit r q socket = sin_bajar _ (Keeps-pure tt)

  liberar_hilos-Son : (l : List Ref) → Keeps (Grado (Son k n)) (liberar_hilos l)
  unfolding liberar_hilos
  liberar_hilos-Son [] = Keeps-pure tt
  liberar_hilos-Son (r ∷ l) =
      Keeps-then _ _ (Frame.load_thread-Keeps son r)
        (Keeps-then _ _ (Frame.set_thread-Keeps son r _) (liberar_hilos-Son l))

  cerrar_proceso-Son :
      (p : Process) (socket : ℕ) → Keeps (Grado (Son k n)) (cerrar_proceso p socket)
  unfolding cerrar_proceso
  cerrar_proceso-Son p socket = search (stable_rules, son, liberar_hilos-Son) depth 20

  avisar-Son : (b : Bool) (r : Ref) → Keeps (Grado (Son k n)) (if b then pure tt else desjoinear r)
  avisar-Son b r = search (stable_rules, son, Frame.desjoinear-Keeps) depth 20

  cerrar_hilo-Cuenta :
      (q r : Ref) (socket : ℕ)
      → Ensures (Grado (Son k n)) (cerrar_hilo q r socket) (Grado (BajaUno k n))
  unfolding cerrar_hilo
  cerrar_hilo-Cuenta q r socket = Ensures-bind _ _ (Frame.load_thread-Keeps son r) λ t.
      Ensures-then _ _ (avisar-Son _ r) (
        Ensures-bind _ _ (Frame.load_thread-Keeps son r) λ t'.
          Ensures-then _ _ (cerrar_en-Cuenta t'.estado r q socket)
            (Ensures-then _ _ (Frame.metricas-Keeps bajo) (Keeps-pure _)))

  close_tid-Cuenta :
      (tid socket : ℕ) → Ensures (Grado (Son k n)) (close_tid tid socket) (Grado (BajaUno k n))
  unfolding close_tid
  close_tid-Cuenta tid socket = Ensures-bind _ _ (Frame.find_process-Keeps son socket) λ q.
      Ensures-bind _ _ (Frame.load_process-Keeps son q) λ p.
        Ensures-bind _ _ (Frame.find_thread-Keeps son p tid) λ r.
          Ensures-bind _ _ (Frame.load_thread-Keeps son r) λ t.
            Ensures-if _ _ _ (λ e. sin_bajar _ (cerrar_proceso-Son p socket))
              (λ e. cerrar_hilo-Cuenta q r socket)

  pub atender-Ensures :
      (socket : ℕ) (cop : Cop) (r : Pedido)
      → Ensures (Grado (Son k n)) (atender socket cop r) (Grado (Cuenta cop k n))
  unfolding atender handle_close_tid
  atender-Ensures socket cop_suse_create r = crear-Cuenta socket r
  atender-Ensures socket cop_next_tid r = handle_next_tid-Grado (Son k n) socket r
  atender-Ensures socket cop_close_tid r =
      Ensures-then _ _ (Frame.esperar_handshake-Keeps son socket r.inicio cop_close_tid) (
        Ensures-bind _ _ (close_tid-Cuenta r.tid socket)
          λ resultado. Frame.enviar-Keeps bajo socket cop_close_tid _)
  atender-Ensures socket cop_wait_sem r = handle_wait_sem-Grado (Son k n) socket r
  atender-Ensures socket cop_signal_sem r = handle_signal_sem-Grado (Son k n) socket r
  atender-Ensures socket cop_suse_join r = handle_suse_join-Grado (Son k n) socket r

module _ ⦃m : Machine⦄ where
  -- When a request returns, `MAX_MULTIPROG` is what it was, and `ACTUAL_MULTIPROG` is one more after
  -- a creation if that does not pass the maximum, and otherwise as it was; as it was or one less
  -- after the end of a thread; and as it was after any other request.
  pub atender-Cuenta :
      (socket : ℕ) (cop : Cop) (r : Pedido) (s t : Suse)
      → atender socket cop r s ≡ ok tt t
      → Cuenta cop s.actual_multiprog s.max_multiprog t.actual_multiprog t.max_multiprog
  atender-Cuenta socket cop r s t e =
      rw e at ((atender-Ensures s.actual_multiprog s.max_multiprog socket cop r).at s (refl, refl))
