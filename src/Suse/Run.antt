-- ===== src/Suse/Run.antt =====
-- Commands over the state of suse.c. `fault` is a dereference of `NULL` or of a freed object;
-- `blocks` is a call that never returns: a lock of a mutex that is held, or a wait on a semaphore at
-- zero, by the one thread that runs here.
use tp_sistemas_operativos.Base.{
  ℕ, suc, zero, Bool, true, false, Option, none, some, List, [], ◌∷◌, ◌++◌, ◌==◌, if◌then◌else◌,
}
use tp_sistemas_operativos.Base.Int.{ℤ}
use tp_sistemas_operativos.Commons.{Ref, Machine}
use tp_sistemas_operativos.Suse.State.{
  Mutex, same_mutex, Envio, Semaforo, Process, Thread, Suse, Cop, Payload,
}

module _ ⦃m : Machine⦄ where
  open m use {Double, gettimeofday, list_find}

  pub data Run (A : Type 0) : Type 0 where
    ok : A → Suse → Run A
    fault : Run A
    blocks : Run A

  abbrev pub Cmd : Type 0 → Type 0
  Cmd A = Suse → Run A

module _ ⦃m : Machine⦄ {A : Type 0} where
  unfoldable pub pure : A → Cmd A
  pure a s = ok a s

  unfoldable pub gets : (Suse → A) → Cmd A
  gets f s = ok (f s) s

  unfoldable pub or_fault : Option A → Cmd A
  or_fault none s = fault
  or_fault (some a) s = ok a s

module _ ⦃m : Machine⦄ where
  unfoldable pub modify : (Suse → Suse) → Cmd (Unit {0})
  modify f s = ok tt (f s)

module _ ⦃m : Machine⦄ {A B : Type 0} where
  abbrev pub and_then : Run A → (A → Cmd B) → Run B
  and_then (ok a s) k = k a s
  and_then fault k = fault
  and_then blocks k = blocks

  -- To open this opens `pure`, `gets`, `modify` and `or_fault` too.
  infixl 5 ◌>>=◌ ◌>>◌
  unfoldable pub ◌>>=◌ : Cmd A → (A → Cmd B) → Cmd B
  unfolding pure gets modify or_fault
  ◌>>=◌ c k s = and_then (c s) k

  unfoldable pub ◌>>◌ : Cmd A → Cmd B → Cmd B
  unfolding ◌>>=◌
  ◌>>◌ c d s = and_then (c s) (λ _. d)

abbrev pub put_at {ℓ} : {A : Type ℓ} → (Ref → Option A) → Ref → Option A → Ref → Option A
put_at f r a q = if q == r then a else f q

module _ ⦃m : Machine⦄ where
  open m use {Double, gettimeofday, list_find}

  -- `p->…` of a thread, a process, a semaphore.
  unfoldable pub load_thread : Ref → Cmd Thread
  unfolding or_fault
  load_thread r s = or_fault (s.threads r) s

  unfoldable pub load_process : Ref → Cmd Process
  unfolding or_fault
  load_process r s = or_fault (s.processes r) s

  unfoldable pub load_semaphore : Ref → Cmd Semaforo
  unfolding or_fault
  load_semaphore r s = or_fault (s.semaphores r) s

  unfoldable pub set_thread : Ref → Option Thread → Cmd (Unit {0})
  unfolding modify
  set_thread r t = modify λ s. record s { threads = put_at s.threads r t }

  unfoldable pub set_process : Ref → Option Process → Cmd (Unit {0})
  unfolding modify
  set_process r p = modify λ s. record s { processes = put_at s.processes r p }

  unfoldable pub set_semaphore : Ref → Option Semaforo → Cmd (Unit {0})
  unfolding modify
  set_semaphore r x = modify λ s. record s { semaphores = put_at s.semaphores r x }

  -- `p->f = …`, by a function on the object.
  unfoldable pub update_thread : Ref → (Thread → Thread) → Cmd (Unit {0})
  unfolding ◌>>=◌ load_thread set_thread
  update_thread r f = do t ← load_thread r; set_thread r (some (f t))

  unfoldable pub update_process : Ref → (Process → Process) → Cmd (Unit {0})
  unfolding ◌>>=◌ load_process set_process
  update_process r f = do p ← load_process r; set_process r (some (f p))

  unfoldable pub update_semaphore : Ref → (Semaforo → Semaforo) → Cmd (Unit {0})
  unfolding ◌>>=◌ load_semaphore set_semaphore
  update_semaphore r f = do x ← load_semaphore r; set_semaphore r (some (f x))

  -- Assignments to the lists that are globals.
  unfoldable pub set_new_queue : (Suse → List Ref) → Cmd (Unit {0})
  unfolding modify
  set_new_queue f = modify λ s. record s { new_queue = f s }

  unfoldable pub set_blocked_queue : (Suse → List Ref) → Cmd (Unit {0})
  unfolding modify
  set_blocked_queue f = modify λ s. record s { blocked_queue = f s }

  unfoldable pub set_exit_queue : (Suse → List Ref) → Cmd (Unit {0})
  unfolding modify
  set_exit_queue f = modify λ s. record s { exit_queue = f s }

  unfoldable pub set_process_list : (Suse → List Ref) → Cmd (Unit {0})
  unfolding modify
  set_process_list f = modify λ s. record s { process = f s }

  unfoldable pub set_semaforos : (Suse → List Ref) → Cmd (Unit {0})
  unfolding modify
  set_semaforos f = modify λ s. record s { semaforos = f s }

  unfoldable pub set_actual_multiprog : (ℤ → ℤ) → Cmd (Unit {0})
  unfolding modify
  set_actual_multiprog f = modify λ s. record s { actual_multiprog = f s.actual_multiprog }

  -- `malloc`: a pointer that was never given before.
  unfoldable pub new_thread_object : Thread → Cmd Ref
  new_thread_object t s =
      ok s.next_ref
        (record s { threads = put_at s.threads s.next_ref (some t); next_ref = suc s.next_ref })

  unfoldable pub new_process_object : Process → Cmd Ref
  new_process_object p s =
      ok s.next_ref
        (record s { processes = put_at s.processes s.next_ref (some p); next_ref = suc s.next_ref })

  unfoldable pub new_semaphore_object : Semaforo → Cmd Ref
  new_semaphore_object x s =
      ok s.next_ref (record s {
        semaphores = put_at s.semaphores s.next_ref (some x);
        next_ref = suc s.next_ref;
      })

  -- A mutex of the default kind: its owner waits for ever on a second lock.
  unfoldable pub lock_on : Bool → Mutex → Cmd (Unit {0})
  lock_on true k s = blocks
  lock_on false k s = ok tt (record s { held = λ j. if same_mutex j k then true else s.held j })

  unfoldable pub lock : Mutex → Cmd (Unit {0})
  unfolding lock_on
  lock k s = lock_on (s.held k) k s

  unfoldable pub unlock : Mutex → Cmd (Unit {0})
  unfolding modify
  unlock k = modify λ s. record s { held = λ j. if same_mutex j k then false else s.held j }

  unfoldable pub get_time_today : Cmd Double
  get_time_today s = ok (gettimeofday s.reads) (record s { reads = suc s.reads })

  unfoldable pub enviar : ℕ → Cop → Payload → Cmd (Unit {0})
  unfolding modify
  enviar socket cop datos = modify λ s. record s { sent = s.sent ++ envio ∷ [] }
    where
      envio : Envio
      envio = record { socket = socket; codigo_operacion = cop; datos = datos }

  -- The callbacks given to the list functions: a test of the object at a pointer. A pointer to a
  -- freed object passes no test.
  abbrev pub thread_is : Suse → (Thread → Bool) → Ref → Bool
  thread_is s p r = elim (s.threads r) [ none ↦ false | some t ↦ p t ]

  abbrev pub process_is : Suse → (Process → Bool) → Ref → Bool
  process_is s p r = elim (s.processes r) [ none ↦ false | some q ↦ p q ]

  abbrev pub semaphore_is : Suse → (Semaforo → Bool) → Ref → Bool
  semaphore_is s p r = elim (s.semaphores r) [ none ↦ false | some x ↦ p x ]

  -- `list_find(configuracion_suse.process, …)` for the process with an id, or `NULL`.
  unfoldable pub find_process : ℕ → Cmd Ref
  unfolding gets
  find_process id = gets λ s. list_find s.process (process_is s (λ p. p.process_id == id))

  -- `list_find(process->ULTS, …)` for the thread with a tid, or `NULL`.
  unfoldable pub find_thread : Process → ℕ → Cmd Ref
  unfolding gets
  find_thread p tid = gets λ s. list_find p.ults (thread_is s (λ t. t.tid == tid))

  -- `sem_post` and `sem_wait` on the semaphore of a process.
  unfoldable pub sem_post : Ref → Cmd (Unit {0})
  unfolding update_process
  sem_post process = update_process process λ p. record p { semaforo_ready = suc p.semaforo_ready }

  unfoldable pub sem_wait_on : Ref → Process → ℕ → Cmd (Unit {0})
  unfolding set_process
  sem_wait_on process p zero s = blocks
  sem_wait_on process p (suc n) s = set_process process (some (record p { semaforo_ready = n })) s

  unfoldable pub sem_wait : Ref → Cmd (Unit {0})
  unfolding ◌>>=◌ load_process sem_wait_on
  sem_wait process = do p ← load_process process; sem_wait_on process p p.semaforo_ready
