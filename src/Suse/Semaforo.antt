-- ===== src/Suse/Semaforo.antt =====
-- A semaphore of suse.c in the state, and how it is found.
pub mod Wait
pub mod Signal
pub mod Balance
pub mod Errores
pub mod Inicio
use Prim.Native.String.{String}
use text.Mathlib.Text.{◌==◌ as str_eq}
use tp_sistemas_operativos.Base.{
  ℕ, ◌≡◌, refl, sym, ap, ◌∙◌, subst, Bool, true, false, Option, none, some, ◌==◌, fun_ext, arith,
  if◌then◌else◌, ◌≢◌,
}
use tp_sistemas_operativos.Base.Int.{ℤ, pos, negsuc, ◌+ℤ◌, ◌-ℤ◌, leb_ℤ, eqb_ℤ}
use tp_sistemas_operativos.Commons.{Ref, null, Machine}
use tp_sistemas_operativos.Suse.State.{
  Mutex, mutex_semaforos, mutex_blocked_queue, Semaforo, Process, Suse,
}
use tp_sistemas_operativos.Suse.Run.{
  Cmd, and_then, lock_on, ok, pure, gets, modify, ◌>>=◌, ◌>>◌, put_at, load_semaphore,
  update_semaphore, set_semaphore, semaphore_is, process_is, thread_is, lock, unlock,
  set_blocked_queue,
}
use tp_sistemas_operativos.Suse.Eval.{
  bind-ok, then-ok, if-false, if-true, con_mutex, load_process-ok, load_semaphore-ok, lock-ok,
  find_process-ok, find_thread-ok,
}
use tp_sistemas_operativos.Suse.Logic.{
  After, Ensures, Keeps, Keeps-pure, Ensures-bind, Ensures-then, After-then, After-bind,
}
use tp_sistemas_operativos.Suse.Frame
use tp_sistemas_operativos.Suse.Frame.{Stable, stable_rules}
use tp_sistemas_operativos.Suse.Transitions.{ejecucion_a_bloqueado_por_semaforo, remover_ult_exec}
use tp_sistemas_operativos.Suse.Semaphores.{
  find_semaforo, decrementar_semaforo, incrementar_semaforo, desbloquear_hilos_semaforo, wait_sem,
  signal_sem,
}

module _ ⦃m : Machine⦄ where
  open m use {list_find, list_add, list_get, list_remove}

  -- At `r` stands the semaphore `x`.
  abbrev pub Has : Ref → Semaforo → Suse → Type 0
  Has r x s = s.semaphores r ≡ some x

  pub Has-Stable : (r : Ref) (x : Semaforo) → Stable (Has r x)
  Has-Stable r x = record {
    threads = λ s y h. h;
    processes = λ s y h. h;
    process = λ s y h. h;
    new_queue = λ s y h. h;
    blocked_queue = λ s y h. h;
    exit_queue = λ s y h. h;
    held = λ s y h. h;
    sent = λ s y h. h;
    reads = λ s y h. h;
    next_ref = λ s y h. h;
  }

  pub put_at-same : (f : Ref → Option Semaforo) (r : Ref) (x : Option Semaforo) → put_at f r x r ≡ x
  put_at-same f r x = ground arith

  pub update_semaphore-ok :
      (r : Ref) (f : Semaforo → Semaforo) (x : Semaforo) (s : Suse)
      → Has r x s
      → update_semaphore r f s
        ≡ ok tt (record s { semaphores = put_at s.semaphores r (some (f x)) })
  unfolding update_semaphore set_semaphore modify
  update_semaphore-ok r f x s h =
      bind-ok (load_semaphore r) (λ y. set_semaphore r (some (f y))) s s x
        (load_semaphore-ok s r x h)

  pub update_semaphore-Has :
      (r : Ref) (f : Semaforo → Semaforo) (x : Semaforo)
      → Ensures (Has r x) (update_semaphore r f) (Has r (f x))
  update_semaphore-Has r f x = record {
    at = λ s h.
        subst (After (λ _. Has r (f x))) (sym (update_semaphore-ok r f x s h))
          (put_at-same s.semaphores r (some (f x)));
  }

  -- The semaphore with a name, in a state.
  pub record IsNamed (s : Suse) (sem : String) (r : Ref) (x : Semaforo) : Type 0 where
    pub found : list_find s.semaforos (semaphore_is s (λ y. str_eq y.name sem)) ≡ r
    pub there : (r == null) ≡ false
    pub has : s.semaphores r ≡ some x

  -- The thread with a tid, of the process of a socket, in a state.
  pub record IsCaller (s : Suse) (socket tid : ℕ) (hilo : Ref) : Type 0 where
    pub q : Ref
    pub p : Process
    pub owner : list_find s.process (process_is s (λ o. o.process_id == socket)) ≡ q
    pub process : s.processes q ≡ some p
    pub thread : list_find p.ults (thread_is s (λ u. u.tid == tid)) ≡ hilo

  pub find_semaforo-ok :
      (s : Suse) (sem : String) (r : Ref) (x : Semaforo)
      → IsNamed s sem r x
      → find_semaforo sem s ≡ ok r s
  unfolding find_semaforo gets
  find_semaforo-ok s sem r x n = ap (λ q. ok q s) n.found

  After-lock_on :
      {A : Type 0} (b : Bool) (k : Mutex) (d : Cmd A) (Q : A → Suse → Type 0) (s : Suse)
      → After Q (d (record s { held = con_mutex k s.held }))
      → After Q (and_then (lock_on b k s) (λ _. d))
  unfolding lock_on
  After-lock_on true k d Q s h = tt
  After-lock_on false k d Q s h = h

  -- A lock that is taken changes nothing but which mutexes are held.
  pub After-lock :
      {A : Type 0} (k : Mutex) (d : Cmd A) (Q : A → Suse → Type 0) (s : Suse)
      → After Q (d (record s { held = con_mutex k s.held }))
      → After Q ((lock k >> d) s)
  unfolding lock ◌>>◌
  After-lock k d Q s h = After-lock_on (s.held k) k d Q s h

  -- The facts about a state do not read which mutexes are held.
  pub IsNamed-held :
      (s : Suse) (held : Mutex → Bool) (sem : String) (r : Ref) (x : Semaforo)
      → IsNamed s sem r x
      → IsNamed (record s { held = held }) sem r x
  IsNamed-held s held sem r x n = record { found = n.found; there = n.there; has = n.has }

  pub IsCaller-held :
      (s : Suse) (held : Mutex → Bool) (socket tid : ℕ) (hilo : Ref)
      → IsCaller s socket tid hilo
      → IsCaller (record s { held = held }) socket tid hilo
  IsCaller-held s held socket tid hilo c = record {
    q = c.q;
    p = c.p;
    owner = c.owner;
    process = c.process;
    thread = c.thread;
  }
