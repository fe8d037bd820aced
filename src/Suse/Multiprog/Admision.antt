-- ===== src/Suse/Multiprog/Admision.antt =====
-- The degree of multiprogramming, and the moves of suse.c that raise it once there is room.
use tp_sistemas_operativos.Base.{ℕ, ◌≡◌, true, false, Bool, refl, if◌then◌else◌}
use tp_sistemas_operativos.Base.Int.{ℤ, pos, ◌+ℤ◌, ◌-ℤ◌, leb_ℤ}
use tp_sistemas_operativos.Commons.{Ref, Machine}
use tp_sistemas_operativos.Suse.State.{Suse}
use tp_sistemas_operativos.Suse.Run.{Cmd, pure, ◌>>=◌, load_process, set_actual_multiprog}
use tp_sistemas_operativos.Suse.Logic.{
  After, Ensures, Keeps-gets, Ensures-modify, Ensures-bind, Ensures-then, Ensures-if,
}
use tp_sistemas_operativos.Suse.Frame
use tp_sistemas_operativos.Suse.Frame.{Stable, stable_rules}
use tp_sistemas_operativos.Suse.Transitions.{nuevo_a_listo, nuevo_a_ejecucion}
use tp_sistemas_operativos.Suse.Scheduler.{si_hay_lugar}
use tp_sistemas_operativos.Suse.Close.{obtener_ult_ready_fifo, bajar_multiprog}

module _ ⦃m : Machine⦄ where
  -- A condition on the degree of multiprogramming and its maximum.
  abbrev pub Grado : (ℤ → ℤ → Type 0) → Suse → Type 0
  Grado Q s = Q s.actual_multiprog s.max_multiprog

  -- A condition that holds once the degree is one more.
  abbrev pub Antes : (ℤ → ℤ → Type 0) → Suse → Type 0
  Antes Q = Grado (λ actual max. Q (actual +ℤ pos 1) max)

  pub Grado-Stable : (Q : ℤ → ℤ → Type 0) → Stable (Grado Q)
  Grado-Stable Q = record {
    threads = λ s x h. h;
    processes = λ s x h. h;
    process = λ s x h. h;
    new_queue = λ s x h. h;
    blocked_queue = λ s x h. h;
    exit_queue = λ s x h. h;
    held = λ s x h. h;
    sent = λ s x h. h;
    reads = λ s x h. h;
    next_ref = λ s x h. h;
  }

  -- What raises the degree by one, once, however the condition on it reads.
  pub record Admite (c : Cmd (Unit {0})) : Type 1 where
    pub por : (Q : ℤ → ℤ → Type 0) → Ensures (Antes Q) c (Grado Q)

  subir-Grado :
      (Q : ℤ → ℤ → Type 0) → Ensures (Antes Q) (set_actual_multiprog λ n. n +ℤ pos 1) (Grado Q)
  unfolding set_actual_multiprog
  subir-Grado Q = Ensures-modify _ (λ s h. h)

  module _ (Q : ℤ → ℤ → Type 0) where
    antes : Stable (Antes Q)
    antes = Grado-Stable (λ actual max. Q (actual +ℤ pos 1) max)

    nuevo_a_listo-Grado : (r : Ref) (id : ℕ) → Ensures (Antes Q) (nuevo_a_listo r id) (Grado Q)
    unfolding nuevo_a_listo
    nuevo_a_listo-Grado r id = Ensures-bind _ _ (Frame.find_process-Keeps antes id) λ p.
        Ensures-bind _ _ (Frame.get_time_today-Keeps antes) λ t.
          Ensures-then _ _ (Frame.update_thread-Keeps antes r _) (
            Ensures-then _ _ (Frame.update_process-Keeps antes p _) (
              Ensures-then _ _ (Frame.eliminar_ult_cola_actual-Keeps antes r p) (
                Ensures-then _ _ (Frame.update_thread-Keeps antes r _)
                  (Ensures-then _ _ (subir-Grado Q) (Frame.sem_post-Keeps (Grado-Stable Q) p)))))

    nuevo_a_ejecucion-Grado :
        (r : Ref) (id : ℕ) → Ensures (Antes Q) (nuevo_a_ejecucion r id) (Grado Q)
    unfolding nuevo_a_ejecucion
    nuevo_a_ejecucion-Grado r id = Ensures-bind _ _ (Frame.get_time_today-Keeps antes) λ aux.
        Ensures-bind _ _ (Frame.find_process-Keeps antes id) λ p.
          Ensures-then _ _ (Frame.eliminar_ult_cola_actual-Keeps antes r p) (
            Ensures-bind _ _ (Frame.get_time_today-Keeps antes) λ t.
              Ensures-then _ _ (Frame.update_thread-Keeps antes r _)
                (Ensures-then _ _ (Frame.update_process-Keeps antes p _) (subir-Grado Q)))

  pub ult_listo-Admite : (r q : Ref) → Admite (load_process q >>= λ p. nuevo_a_listo r p.process_id)
  ult_listo-Admite r q = record {
    por = λ Q.
        Ensures-bind _ _ (Frame.load_process-Keeps (antes Q) q)
          λ p. nuevo_a_listo-Grado Q r p.process_id;
  }

  pub main_ejecuta-Admite :
      (r q : Ref) → Admite (load_process q >>= λ p. nuevo_a_ejecucion r p.process_id)
  main_ejecuta-Admite r q = record {
    por = λ Q.
        Ensures-bind _ _ (Frame.load_process-Keeps (antes Q) q)
          λ p. nuevo_a_ejecucion-Grado Q r p.process_id;
  }

  sin_nuevos-Grado :
      (P Q : ℤ → ℤ → Type 0)
      → ((actual max : ℤ) → P actual max → Q actual max)
      → Ensures (Grado P) (pure tt) (Grado Q)
  unfolding pure
  sin_nuevos-Grado P Q queda = record { at = λ s h. queda s.actual_multiprog s.max_multiprog h }

  listo-Grado :
      (P Q : ℤ → ℤ → Type 0) (r : Ref) (id : ℕ)
      → ((actual max : ℤ) → P actual max → Q (actual +ℤ pos 1) max)
      → Ensures (Grado P) (nuevo_a_listo r id) (Grado Q)
  listo-Grado P Q r id sube = record {
    at = λ s h. (nuevo_a_listo-Grado Q r id).at s (sube s.actual_multiprog s.max_multiprog h);
  }

  -- The first new thread is admitted, or there is none.
  pub obtener-Grado :
      (P Q : ℤ → ℤ → Type 0)
      → ((actual max : ℤ) → P actual max → Q (actual +ℤ pos 1) max)
      → ((actual max : ℤ) → P actual max → Q actual max)
      → Ensures (Grado P) obtener_ult_ready_fifo (Grado Q)
  unfolding obtener_ult_ready_fifo
  obtener-Grado P Q sube queda = Ensures-bind _ _ (Keeps-gets _) λ r.
      Ensures-if _ _ _ (λ e. sin_nuevos-Grado P Q queda)
        λ e. Ensures-bind _ _ (Frame.load_thread-Keeps (Grado-Stable P) r) λ t.
          Ensures-bind _ _ (Frame.find_process-Keeps (Grado-Stable P) t.proceso_id) λ q.
            Ensures-bind _ _ (Frame.load_process-Keeps (Grado-Stable P) q)
              λ p. listo-Grado P Q r p.process_id sube

  pub bajar-Grado :
      (P Q : ℤ → ℤ → Type 0)
      → ((actual max : ℤ) → P actual max → Q (actual -ℤ pos 1) max)
      → Ensures (Grado P) bajar_multiprog (Grado Q)
  unfolding bajar_multiprog set_actual_multiprog
  bajar-Grado P Q menos = Ensures-modify _ (λ s h. menos s.actual_multiprog s.max_multiprog h)

  rama-Ensures :
      (c : Cmd (Unit {0})) (P Q : Suse → Type 0) (b : Bool) (s : Suse)
      → (b ≡ true → After (λ _. Q) (c s))
      → (b ≡ false → Q s)
      → After (λ _. Q) ((if b then c else pure tt) s)
  unfolding pure
  rama-Ensures c P Q true s con sin = con refl
  rama-Ensures c P Q false s con sin = sin refl

  -- `si_hay_lugar`, by its test.
  pub si_hay_lugar-Ensures :
      (c : Cmd (Unit {0})) (P Q : Suse → Type 0)
      → ((s : Suse)
          → P s
          → leb_ℤ (s.actual_multiprog +ℤ pos 1) s.max_multiprog ≡ true
          → After (λ _. Q) (c s))
      → ((s : Suse) → P s → leb_ℤ (s.actual_multiprog +ℤ pos 1) s.max_multiprog ≡ false → Q s)
      → Ensures P (si_hay_lugar c) Q
  unfolding si_hay_lugar ◌>>=◌
  si_hay_lugar-Ensures c P Q con sin = record {
    at = λ s h. rama-Ensures c P Q _ s (con s h) (sin s h);
  }
