-- ===== src/Muse/Malloc/Rechazo.antt =====
-- `memory_malloc` of a size that is not positive.
use tp_sistemas_operativos.Base.{ℕ, zero, suc, ◌≡◌, refl, true, false, arith}
use tp_sistemas_operativos.Base.Int.{ℤ, pos, negsuc, ◌≤ℤ◌}
use tp_sistemas_operativos.Commons.{Lists}
use tp_sistemas_operativos.Comandos.{ok, blocks, pure}
use tp_sistemas_operativos.Comandos.Eval.{then-blocks}
use tp_sistemas_operativos.Muse.State.{Muse, mutex_lock}
use tp_sistemas_operativos.Muse.Run.{lock}
use tp_sistemas_operativos.Muse.Run.Locks.{tomado, lock_then, lock-tomado}
use tp_sistemas_operativos.Muse.Malloc.{malloc_positivo, memory_malloc}

module _ ⦃c : Lists⦄ where
  memory_malloc-toma :
      (tope : ℕ) (size : ℤ) (pid : ℕ) (s : Muse)
      → size ≤ℤ pos 0
      → s.held mutex_lock ≡ false
      → memory_malloc tope size pid s ≡ ok 0 (tomado mutex_lock s)
  unfolding memory_malloc pure
  memory_malloc-toma tope (negsuc n) pid s h l = lock_then mutex_lock _ s l
  memory_malloc-toma tope (pos zero) pid s h l = lock_then mutex_lock _ s l
  memory_malloc-toma tope (pos (suc n)) pid s h l = absurd (omega (arith, h))

  memory_malloc-espera :
      (tope : ℕ) (size : ℤ) (pid : ℕ) (s : Muse)
      → s.held mutex_lock ≡ true
      → memory_malloc (suc tope) size pid s ≡ blocks
  unfolding memory_malloc malloc_positivo
  memory_malloc-espera tope (negsuc n) pid s h =
      then-blocks (lock mutex_lock) _ s (lock-tomado mutex_lock s h)
  memory_malloc-espera tope (pos zero) pid s h =
      then-blocks (lock mutex_lock) _ s (lock-tomado mutex_lock s h)
  memory_malloc-espera tope (pos (suc n)) pid s h =
      then-blocks (lock mutex_lock) _ s (lock-tomado mutex_lock s h)

  -- With `mutex_lock` free, `memory_malloc` of a size that is not positive returns 0 with
  -- `mutex_lock` taken, so that the next `memory_malloc`, of any size and program, never returns.
  pub memory_malloc-bloquea :
      (tope otro_tope : ℕ) (size otro : ℤ) (pid otro_pid : ℕ) (s : Muse)
      → size ≤ℤ pos 0
      → s.held mutex_lock ≡ false
      → (t : Muse) × (memory_malloc tope size pid s ≡ ok 0 t)
        × (memory_malloc (suc otro_tope) otro otro_pid t ≡ blocks)
  memory_malloc-bloquea tope otro_tope size otro pid otro_pid s h l = (
    tomado mutex_lock s,
    memory_malloc-toma tope size pid s h l,
    memory_malloc-espera otro_tope otro otro_pid (tomado mutex_lock s) refl,
  )
