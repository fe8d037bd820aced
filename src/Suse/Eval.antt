-- ===== src/Suse/Eval.antt =====
-- How a run of commands goes on after its first command.
use tp_sistemas_operativos.Base.{ℕ, ◌≡◌, refl, ap, Bool, true, false, some, ◌==◌, if◌then◌else◌}
use tp_sistemas_operativos.Commons.{Ref, Machine}
use tp_sistemas_operativos.Suse.State.{Mutex, same_mutex, Process, Thread, Semaforo, Suse}
use tp_sistemas_operativos.Suse.Run.{
  ok, blocks, Cmd, and_then, ◌>>=◌, ◌>>◌, load_thread, load_process, load_semaphore, lock, lock_on,
  find_process, find_thread, process_is, thread_is,
}

module _ ⦃m : Machine⦄ {A B : Type 0} where
  pub bind-ok :
      (c : Cmd A) (k : A → Cmd B) (s t : Suse) (a : A) → c s ≡ ok a t → (c >>= k) s ≡ k a t
  unfolding ◌>>=◌
  bind-ok c k s t a h = ap (λ r. and_then r k) h

  pub then-ok : (c : Cmd A) (d : Cmd B) (s t : Suse) (a : A) → c s ≡ ok a t → (c >> d) s ≡ d t
  unfolding ◌>>◌
  then-ok c d s t a h = ap (λ r. and_then r (λ _. d)) h

  pub bind-blocks : (c : Cmd A) (k : A → Cmd B) (s : Suse) → c s ≡ blocks → (c >>= k) s ≡ blocks
  unfolding ◌>>=◌
  bind-blocks c k s h = ap (λ r. and_then r k) h

  pub then-blocks : (c : Cmd A) (d : Cmd B) (s : Suse) → c s ≡ blocks → (c >> d) s ≡ blocks
  unfolding ◌>>◌
  then-blocks c d s h = ap (λ r. and_then r (λ _. d)) h

module _ ⦃m : Machine⦄ {A : Type 0} where
  pub if-false : (b : Bool) (c d : Cmd A) (s : Suse) → b ≡ false → (if b then c else d) s ≡ d s
  if-false b c d s h = ap (λ x. (if x then c else d) s) h

  pub if-true : (b : Bool) (c d : Cmd A) (s : Suse) → b ≡ true → (if b then c else d) s ≡ c s
  if-true b c d s h = ap (λ x. (if x then c else d) s) h

-- The mutexes held after `lock` and after `unlock`.
abbrev pub con_mutex : Mutex → (Mutex → Bool) → Mutex → Bool
con_mutex k held j = if same_mutex j k then true else held j

module _ ⦃m : Machine⦄ where
  open m use {list_find}

  pub load_thread-ok :
      (s : Suse) (r : Ref) (t : Thread) → s.threads r ≡ some t → load_thread r s ≡ ok t s
  unfolding load_thread
  load_thread-ok s r t h = rw h refl

  pub load_process-ok :
      (s : Suse) (r : Ref) (p : Process) → s.processes r ≡ some p → load_process r s ≡ ok p s
  unfolding load_process
  load_process-ok s r p h = rw h refl

  pub load_semaphore-ok :
      (s : Suse) (r : Ref) (x : Semaforo) → s.semaphores r ≡ some x → load_semaphore r s ≡ ok x s
  unfolding load_semaphore
  load_semaphore-ok s r x h = rw h refl

  pub lock-ok :
      (s : Suse) (k : Mutex)
      → s.held k ≡ false
      → lock k s ≡ ok tt (record s { held = con_mutex k s.held })
  unfolding lock lock_on
  lock-ok s k h = rw h refl

  pub lock-blocks : (s : Suse) (k : Mutex) → s.held k ≡ true → lock k s ≡ blocks
  unfolding lock lock_on
  lock-blocks s k h = rw h refl

  pub find_process-ok :
      (s : Suse) (id : ℕ) (q : Ref)
      → list_find s.process (process_is s (λ p. p.process_id == id)) ≡ q
      → find_process id s ≡ ok q s
  unfolding find_process
  find_process-ok s id q h = ap (λ x. ok x s) h

  pub find_thread-ok :
      (s : Suse) (p : Process) (tid : ℕ) (r : Ref)
      → list_find p.ults (thread_is s (λ t. t.tid == tid)) ≡ r
      → find_thread p tid s ≡ ok r s
  unfolding find_thread
  find_thread-ok s p tid r h = ap (λ x. ok x s) h
