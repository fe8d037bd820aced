-- ===== src/Suse/Frame/Primitives.antt =====
-- What a stable condition allows to change, and the primitive commands that keep it.
use tp_sistemas_operativos.Base.{ℕ, zero, suc, Bool, true, false, Option, List}
use tp_sistemas_operativos.Commons.{Ref, Machine}
use tp_sistemas_operativos.Suse.State.{Mutex, Cop, Payload, Envio, Process, Thread, Suse}
use tp_sistemas_operativos.Suse.Run.{
  set_new_queue, set_blocked_queue, set_exit_queue, set_process_list, load_thread, load_process,
  set_thread, set_process, update_thread, update_process, lock_on, lock, unlock, get_time_today,
  enviar, sem_post, sem_wait, sem_wait_on, find_process, find_thread, new_thread_object,
  new_process_object,
}
use tp_sistemas_operativos.Suse.Logic.{
  Keeps, Keeps-gets, Keeps-or_fault, Ensures-modify, Keeps-bind, keeps_rules,
}

module _ ⦃m : Machine⦄ where
  pub record Stable (I : Suse → Type 0) : Type 0 where
    pub threads : (s : Suse) (x : Ref → Option Thread) → I s → I (record s { threads = x })
    pub processes : (s : Suse) (x : Ref → Option Process) → I s → I (record s { processes = x })
    pub process : (s : Suse) (x : List Ref) → I s → I (record s { process = x })
    pub new_queue : (s : Suse) (x : List Ref) → I s → I (record s { new_queue = x })
    pub blocked_queue : (s : Suse) (x : List Ref) → I s → I (record s { blocked_queue = x })
    pub exit_queue : (s : Suse) (x : List Ref) → I s → I (record s { exit_queue = x })
    pub held : (s : Suse) (x : Mutex → Bool) → I s → I (record s { held = x })
    pub sent : (s : Suse) (x : List Envio) → I s → I (record s { sent = x })
    pub reads : (s : Suse) (x : ℕ) → I s → I (record s { reads = x })
    pub next_ref : (s : Suse) (x : Ref) → I s → I (record s { next_ref = x })

module _ ⦃m : Machine⦄ {I : Suse → Type 0} (stable : Stable I) where
  pub load_thread-Keeps : (r : Ref) → Keeps I (load_thread r)
  unfolding load_thread
  load_thread-Keeps r = record { at = λ s. (Keeps-or_fault (s.threads r)).at s }

  pub load_process-Keeps : (r : Ref) → Keeps I (load_process r)
  unfolding load_process
  load_process-Keeps r = record { at = λ s. (Keeps-or_fault (s.processes r)).at s }

  pub set_thread-Keeps : (r : Ref) (t : Option Thread) → Keeps I (set_thread r t)
  unfolding set_thread
  set_thread-Keeps r t = Ensures-modify _ (λ s. stable.threads s _)

  pub set_process-Keeps : (r : Ref) (p : Option Process) → Keeps I (set_process r p)
  unfolding set_process
  set_process-Keeps r p = Ensures-modify _ (λ s. stable.processes s _)

  pub update_thread-Keeps : (r : Ref) (f : Thread → Thread) → Keeps I (update_thread r f)
  unfolding update_thread
  update_thread-Keeps r f = Keeps-bind _ _ (load_thread-Keeps r) (λ t. set_thread-Keeps r _)

  pub update_process-Keeps : (r : Ref) (f : Process → Process) → Keeps I (update_process r f)
  unfolding update_process
  update_process-Keeps r f = Keeps-bind _ _ (load_process-Keeps r) (λ p. set_process-Keeps r _)

  pub set_new_queue-Keeps : (f : Suse → List Ref) → Keeps I (set_new_queue f)
  unfolding set_new_queue
  set_new_queue-Keeps f = Ensures-modify _ (λ s. stable.new_queue s _)

  pub set_blocked_queue-Keeps : (f : Suse → List Ref) → Keeps I (set_blocked_queue f)
  unfolding set_blocked_queue
  set_blocked_queue-Keeps f = Ensures-modify _ (λ s. stable.blocked_queue s _)

  pub set_exit_queue-Keeps : (f : Suse → List Ref) → Keeps I (set_exit_queue f)
  unfolding set_exit_queue
  set_exit_queue-Keeps f = Ensures-modify _ (λ s. stable.exit_queue s _)

  pub set_process_list-Keeps : (f : Suse → List Ref) → Keeps I (set_process_list f)
  unfolding set_process_list
  set_process_list-Keeps f = Ensures-modify _ (λ s. stable.process s _)

  lock_on-Keeps : (b : Bool) (k : Mutex) → Keeps I (lock_on b k)
  unfolding lock_on
  lock_on-Keeps true k = record { at = λ s h. tt }
  lock_on-Keeps false k = record { at = λ s. stable.held s _ }

  pub lock-Keeps : (k : Mutex) → Keeps I (lock k)
  unfolding lock
  lock-Keeps k = record { at = λ s. (lock_on-Keeps (s.held k) k).at s }

  pub unlock-Keeps : (k : Mutex) → Keeps I (unlock k)
  unfolding unlock
  unlock-Keeps k = Ensures-modify _ (λ s. stable.held s _)

  pub get_time_today-Keeps : Keeps I get_time_today
  unfolding get_time_today
  get_time_today-Keeps = record { at = λ s. stable.reads s _ }

  pub enviar-Keeps : (n : ℕ) (c : Cop) (d : Payload) → Keeps I (enviar n c d)
  unfolding enviar
  enviar-Keeps n c d = Ensures-modify _ (λ s. stable.sent s _)

  pub new_thread_object-Keeps : (t : Thread) → Keeps I (new_thread_object t)
  unfolding new_thread_object
  new_thread_object-Keeps t = record {
    at = λ s h. stable.next_ref (record s { threads = _ }) _ (stable.threads s _ h);
  }

  pub new_process_object-Keeps : (p : Process) → Keeps I (new_process_object p)
  unfolding new_process_object
  new_process_object-Keeps p = record {
    at = λ s h. stable.next_ref (record s { processes = _ }) _ (stable.processes s _ h);
  }

  pub find_process-Keeps : (id : ℕ) → Keeps I (find_process id)
  unfolding find_process
  find_process-Keeps id = Keeps-gets _

  pub find_thread-Keeps : (p : Process) (tid : ℕ) → Keeps I (find_thread p tid)
  unfolding find_thread
  find_thread-Keeps p tid = Keeps-gets _

  pub sem_post-Keeps : (r : Ref) → Keeps I (sem_post r)
  unfolding sem_post
  sem_post-Keeps r = update_process-Keeps r _

  sem_wait_on-Keeps : (r : Ref) (p : Process) (n : ℕ) → Keeps I (sem_wait_on r p n)
  unfolding sem_wait_on
  sem_wait_on-Keeps r p zero = record { at = λ s h. tt }
  sem_wait_on-Keeps r p (suc n) = record { at = λ s. (set_process-Keeps r _).at s }

  pub sem_wait-Keeps : (r : Ref) → Keeps I (sem_wait r)
  unfolding sem_wait
  sem_wait-Keeps r =
      Keeps-bind _ _ (load_process-Keeps r) (λ p. sem_wait_on-Keeps r p p.semaforo_ready)

pub ruleset stable_rules = (
  keeps_rules, load_thread-Keeps, load_process-Keeps, set_thread-Keeps, set_process-Keeps,
  update_thread-Keeps, update_process-Keeps, set_new_queue-Keeps, set_blocked_queue-Keeps,
  set_exit_queue-Keeps, set_process_list-Keeps, lock-Keeps, unlock-Keeps, get_time_today-Keeps,
  enviar-Keeps, new_thread_object-Keeps, new_process_object-Keeps, find_process-Keeps,
  find_thread-Keeps, sem_post-Keeps, sem_wait-Keeps,
)
