-- ===== src/Suse/Semaforo/Balance.antt =====
-- The value of a semaphore of suse.c and the threads that it blocks.
use Prim.Native.String.{String}
use mathlib.Core.Option.{some-injective}
use tp_sistemas_operativos.Base.{
  ℕ, suc, ◌≡◌, refl, sym, ap, ◌∙◌, subst, Bool, true, false, List, [], ◌∷◌, ◌++◌, some, ◌==◌, arith,
  length, length-append, All, if◌then◌else◌,
}
use tp_sistemas_operativos.Base.Int.{ℤ, pos, ◌+ℤ◌, ◌-ℤ◌, leb_ℤ, neg_part}
use tp_sistemas_operativos.Commons.{Ref, null, Machine}
use tp_sistemas_operativos.Suse.State.{Semaforo, Suse}
use tp_sistemas_operativos.Suse.Run.{ok}
use tp_sistemas_operativos.Suse.Semaphores.{wait_sem, signal_sem}
use tp_sistemas_operativos.Suse.Semaforo.{IsNamed, IsCaller}
use tp_sistemas_operativos.Suse.Semaforo.Wait.{con_hilo, restado, wait_sem-tras_wait}
use tp_sistemas_operativos.Suse.Semaforo.Signal.{sumado, liberado, signal_sem-tras_signal}

-- A negative value counts the blocked threads, none of which is `NULL`; with another value there is
-- none.
pub record IsBalanced (x : Semaforo) : Type 0 where
  pub count : length x.blocked_list ≡ neg_part x.value
  pub threads : All (λ r. (r == null) ≡ false) x.blocked_list

All-snoc :
    (l : List Ref) (r : Ref)
    → All (λ q. (q == null) ≡ false) l
    → (r == null) ≡ false
    → All (λ q. (q == null) ≡ false) (l ++ r ∷ [])
All-snoc [] r h e = (e, tt)
All-snoc (q ∷ l) r h e = (h.0, All-snoc l r h.1 e)

wait_low : (v : ℤ) → leb_ℤ v (pos 0) ≡ true → neg_part (v -ℤ pos 1) ≡ suc (neg_part v)
unfolding ◌-ℤ◌
wait_low v h = ground arith

wait_high : (v : ℤ) → leb_ℤ v (pos 0) ≡ false → neg_part (v -ℤ pos 1) ≡ neg_part v
unfolding ◌-ℤ◌
wait_high v h = ground arith

signal_none : (v : ℤ) → 0 ≡ neg_part v → 0 ≡ neg_part (v +ℤ pos 1)
unfolding ◌+ℤ◌
signal_none v h = ground arith

signal_one : (v : ℤ) (k : ℕ) → suc k ≡ neg_part v → k ≡ neg_part (v +ℤ pos 1)
unfolding ◌+ℤ◌
signal_one v k h = ground arith

module _ ⦃m : Machine⦄ where
  open m use {list_add, list_get, list_remove, add_appends, get_reads, remove_drops}

  wait-balance :
      (b : Bool) (hilo : Ref) (x : Semaforo)
      → leb_ℤ x.value (pos 0) ≡ b
      → (hilo == null) ≡ false
      → IsBalanced x
      → IsBalanced (restado (if b then con_hilo hilo x else x))
  wait-balance true hilo x e h w = record {
    count =
        ap length (add_appends x.blocked_list hilo)
        ∙ omega (arith, length-append x.blocked_list (hilo ∷ []), w.count, wait_low x.value e);
    threads =
        subst (All (λ r. (r == null) ≡ false)) (sym (add_appends x.blocked_list hilo))
          (All-snoc x.blocked_list hilo w.threads h);
  }
  wait-balance false hilo x e h w = record {
    count = w.count ∙ sym (wait_high x.value e);
    threads = w.threads;
  }

  liberado-balance :
      (l : List Ref) (x : Semaforo)
      → length l ≡ neg_part x.value
      → All (λ r. (r == null) ≡ false) l
      → IsBalanced (liberado (sumado (record x { blocked_list = l })))
  liberado-balance [] x c h =
      rw (get_reads [] 0) (record { count = signal_none x.value c; threads = tt })
  liberado-balance (r ∷ l) x c h =
      rw (get_reads (r ∷ l) 0, h.0, remove_drops (r ∷ l) 0)
        (record { count = signal_one x.value (length l) c; threads = h.1 })

  signal-balance :
      (b : Bool) (x : Semaforo) → IsBalanced x → IsBalanced (if b then x else liberado (sumado x))
  signal-balance true x w = w
  signal-balance false x w = liberado-balance x.blocked_list x w.count w.threads

  -- If a semaphore of the configuration is balanced, it is again when a wait on it by a thread of the
  -- program, one that is found by its tid, returns.
  pub wait_sem-IsBalanced :
      (s t : Suse) (socket tid : ℕ) (sem : String) (r hilo : Ref) (x y : Semaforo) (z : ℤ)
      → IsNamed s sem r x
      → IsCaller s socket tid hilo
      → (hilo == null) ≡ false
      → IsBalanced x
      → wait_sem socket tid sem s ≡ ok z t
      → t.semaphores r ≡ some y
      → IsBalanced y
  wait_sem-IsBalanced s t socket tid sem r hilo x y z n c h w e g =
      subst IsBalanced
        (some-injective _ _ (sym (wait_sem-tras_wait s t socket tid sem r hilo x z n c e) ∙ g))
        (wait-balance _ hilo x refl h w)

  -- If a semaphore of the configuration is balanced, it is again when a signal to it returns.
  pub signal_sem-IsBalanced :
      (s t : Suse) (tid : ℕ) (sem : String) (r : Ref) (x y : Semaforo) (z : ℤ)
      → IsNamed s sem r x
      → IsBalanced x
      → signal_sem tid sem s ≡ ok z t
      → t.semaphores r ≡ some y
      → IsBalanced y
  signal_sem-IsBalanced s t tid sem r x y z n w e g =
      subst IsBalanced (some-injective _ _ (sym (signal_sem-tras_signal s t tid sem r x z n e) ∙ g))
        (signal-balance _ x w)
