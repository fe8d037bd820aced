-- ===== src/Muse/Frames/Cuenta.antt =====
-- The counts of free frames of main_memory.c, and how many pages a size needs.
use native.Mathlib.Nat.{div-add-mod, mod-lt, mul-le-mul_right, le_of_mul-le-mul_left}
use tp_sistemas_operativos.Base.{
  ℕ, zero, suc, ◌+◌, ◌*◌, ◌/◌, ◌%◌, ◌<◌, ◌≤◌, ◌≡◌, ◌⊎◌, ap, ap₂, sym, subst, ◌∙◌, Bool, false,
  arith, inl, inr, ◌==◌, if◌then◌else◌,
}
use tp_sistemas_operativos.Comandos.{ok, pure, gets, modify, ◌>>=◌, ◌>>◌}
use tp_sistemas_operativos.Comandos.Eval.{bind-ok, then-ok}
use tp_sistemas_operativos.Muse.State.{
  flags_de_bitmap, flags_de_swap, Muse, mutex_bitmap_heap, mutex_bitmap_mmap,
}
use tp_sistemas_operativos.Muse.Run.{unlock}
use tp_sistemas_operativos.Muse.Run.Locks.{lock_then, soltado-tomado}
use tp_sistemas_operativos.Muse.Frames.{
  sumar_flags, contar_heap, contar_swap, number_of_free_frames_upcm, number_of_free_frames,
  frames_needed,
}

-- How many numbers below `n` have their flag set.
abbrev pub cuantos : (ℕ → Bool) → ℕ → ℕ
cuantos f zero = 0
cuantos f (suc n) = cuantos f n + (if f n then 1 else 0)

cuantos-igual : (f : ℕ → Bool) (i j : ℕ) → i ≡ j → cuantos f i ≡ cuantos f j
cuantos-igual f i j h = ap (cuantos f) h

sumar_flags-cuantos :
    (f : ℕ → Bool) (i n a : ℕ) → sumar_flags f i n a + cuantos f i ≡ a + cuantos f (i + n)
unfolding sumar_flags
sumar_flags-cuantos f i zero a = omega (arith, cuantos-igual f (i + 0) i (omega arith))
sumar_flags-cuantos f i (suc n) a = ground (
  arith,
  sumar_flags-cuantos f (i + 1) n (if f i then a + 1 else a),
  cuantos-igual f (i + 1) (suc i) (omega arith),
  cuantos-igual f (i + suc n) (i + 1 + n) (omega arith),
)

sumar_todos : (f : ℕ → Bool) (n : ℕ) → sumar_flags f 0 n 0 ≡ cuantos f n
sumar_todos f n =
    omega (arith, sumar_flags-cuantos f 0 n 0, cuantos-igual f (0 + n) n (omega arith))

contar_heap-ok :
    (s : Muse)
    → s.held mutex_bitmap_heap ≡ false
    → contar_heap s ≡ ok (cuantos s.bitmap s.total_frame_num) s
unfolding contar_heap ◌>>=◌ ◌>>◌ gets unlock modify pure
contar_heap-ok s h =
    lock_then mutex_bitmap_heap _ s h
    ∙ ap₂ ok (sumar_todos s.bitmap s.total_frame_num) (soltado-tomado mutex_bitmap_heap s h)

contar_swap-ok :
    (s : Muse)
    → s.held mutex_bitmap_mmap ≡ false
    → contar_swap s ≡ ok (cuantos s.bitmap_swap_file s.total_frame_num_swap) s
unfolding contar_swap ◌>>=◌ ◌>>◌ gets unlock modify pure
contar_swap-ok s h =
    lock_then mutex_bitmap_mmap _ s h
    ∙ ap₂ ok (sumar_todos s.bitmap_swap_file s.total_frame_num_swap)
        (soltado-tomado mutex_bitmap_mmap s h)

-- With both bitmaps free, and as many flags in them as there are frames, `number_of_free_frames` returns how many frames of the main memory and of
-- the swap file are free, and changes nothing.
pub number_of_free_frames-cuantos :
    (s : Muse)
    → s.held mutex_bitmap_heap ≡ false
    → s.held mutex_bitmap_mmap ≡ false
    → s.total_frame_num ≤ flags_de_bitmap
    → s.total_frame_num_swap ≤ flags_de_swap
    → number_of_free_frames s
      ≡ ok
          (cuantos s.bitmap s.total_frame_num + cuantos s.bitmap_swap_file s.total_frame_num_swap)
          s
unfolding number_of_free_frames pure
number_of_free_frames-cuantos s h k dentro dentro_de_swap =
    bind-ok contar_heap _ s s _ (contar_heap-ok s h)
    ∙ bind-ok contar_swap _ s s _ (contar_swap-ok s k)

-- `number_of_free_frames_upcm` counts those of the main memory alone.
pub number_of_free_frames_upcm-ok :
    (s : Muse)
    → s.held mutex_bitmap_heap ≡ false
    → s.held mutex_bitmap_mmap ≡ false
    → number_of_free_frames_upcm s ≡ ok (cuantos s.bitmap s.total_frame_num) s
unfolding number_of_free_frames_upcm pure
number_of_free_frames_upcm-ok s h k =
    bind-ok contar_heap _ s s _ (contar_heap-ok s h)
    ∙ then-ok contar_swap _ s s _ (contar_swap-ok s k)

techo-basta : (p q r : ℕ) → r < p → p * q + r ≤ (q + (if r == 0 then 0 else 1)) * p
techo-basta p q r h = grind arith

antes_o_despues : (n q : ℕ) → (n ≤ q) ⊎ (q + 1 ≤ n)
antes_o_despues n q = omega arith

por_mas : (n q p : ℕ) → n ≤ q → n * p ≤ p * q
por_mas n q p h = grind (arith, mul-le-mul_right p h)

cociente : (p q r n : ℕ) → r < p → p * q + r ≤ n * p → q ≤ n
cociente p q r n h k = let m : p * q ≤ p * n = grind arith in le_of_mul-le-mul_left m (omega arith)

techo-EsMenor : (p q r n : ℕ) → r < p → p * q + r ≤ n * p → q + (if r == 0 then 0 else 1) ≤ n
techo-EsMenor p q r n h k = elim (antes_o_despues n q) [
  | inl a ↦ ground (arith, por_mas n q p a, cociente p q r n h k)
  | inr b ↦ ground arith
]

-- For a page size that is not 0, `frames_needed` is the least number of pages that hold a size.
pub frames_needed-EsMenor :
    (page_size size n : ℕ)
    → 0 < page_size
    → (size ≤ frames_needed page_size size * page_size)
      × (size ≤ n * page_size → frames_needed page_size size ≤ n)
unfolding frames_needed
frames_needed-EsMenor page_size size n h = (
  subst (λ s. s ≤ frames_needed page_size size * page_size) (div-add-mod size page_size)
      (techo-basta page_size (size / page_size) (size % page_size) (mod-lt size h)),
  λ k.
      techo-EsMenor page_size (size / page_size) (size % page_size) n (mod-lt size h)
        (subst (λ s. s ≤ n * page_size) (sym (div-add-mod size page_size)) k),
)
