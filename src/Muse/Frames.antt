-- ===== src/Muse/Frames.antt =====
-- The bitmaps of main_memory.c: counting, taking and giving back the frames of the main memory and of
-- the swap file. The amounts that go to the log are not kept.
pub mod Primero
pub mod Cuenta
use tp_sistemas_operativos.Base.{
  ℕ, zero, suc, ◌+◌, ◌/◌, ◌%◌, Bool, true, false, not, Option, none, some, ◌==◌, if◌then◌else◌,
}
use tp_sistemas_operativos.Comandos.{Run, Cmd, pure, gets, ◌>>=◌, ◌>>◌}
use tp_sistemas_operativos.Muse.State.{Muse, mutex_bitmap_heap, mutex_bitmap_mmap}
use tp_sistemas_operativos.Muse.Run.{M, set_bitmap, set_bitmap_swap_file, lock, unlock}

-- The `for` that adds the flags of a bitmap up, with the rounds left.
unfoldable pub sumar_flags : (ℕ → Bool) → ℕ → ℕ → ℕ → ℕ
sumar_flags bitmap i zero frames_libres = frames_libres
sumar_flags bitmap i (suc quedan) frames_libres =
    sumar_flags bitmap (i + 1) quedan (if bitmap i then frames_libres + 1 else frames_libres)

unfoldable pub contar_heap : M ℕ
contar_heap = do
  lock mutex_bitmap_heap
  frames_libres_1 ← gets λ s. sumar_flags s.bitmap 0 s.total_frame_num 0
  unlock mutex_bitmap_heap
  pure frames_libres_1

unfoldable pub contar_swap : M ℕ
contar_swap = do
  lock mutex_bitmap_mmap
  frames_libres_2 ← gets λ s. sumar_flags s.bitmap_swap_file 0 s.total_frame_num_swap 0
  unlock mutex_bitmap_mmap
  pure frames_libres_2

unfoldable pub number_of_free_frames_upcm : M ℕ
number_of_free_frames_upcm = do frames_libres_1 ← contar_heap; contar_swap; pure frames_libres_1

unfoldable pub number_of_free_frames : M ℕ
number_of_free_frames = do
  frames_libres_1 ← contar_heap
  frames_libres_2 ← contar_swap
  pure (frames_libres_1 + frames_libres_2)

-- The first flag that is set, from `i` on, with the rounds left.
unfoldable pub primer_flag : (ℕ → Bool) → ℕ → ℕ → Option ℕ
primer_flag bitmap i zero = none
primer_flag bitmap i (suc quedan) =
    let resto = primer_flag bitmap (i + 1) quedan in if bitmap i then some i else resto

-- `proximo_frame_libre`; `none` is -1. It returns a frame with `mutex_bitmap_heap` held.
unfoldable pub proximo_frame_libre : M (Option ℕ)
proximo_frame_libre = do
  lock mutex_bitmap_heap
  i ← gets λ s. primer_flag s.bitmap 0 s.total_frame_num
  elim i [ none ↦ (do unlock mutex_bitmap_heap; pure none) | some n ↦ pure (some n) ]

unfoldable pub frames_needed : ℕ → ℕ → ℕ
frames_needed page_size size_total =
    size_total / page_size + (if size_total % page_size == 0 then 0 else 1)

-- A free frame of the swap file is taken.
unfoldable pub tomar_swap : ℕ → M (Option ℕ)
tomar_swap i = do set_bitmap_swap_file i false; unlock mutex_bitmap_mmap; pure (some i)

-- The rounds `i`, … of `frame_swap_libre`, `quedan` in number; `none` is -1. Each round takes the
-- mutex and gives it back.
unfoldable pub frame_swap_desde : ℕ → ℕ → M (Option ℕ)
frame_swap_desde i zero = pure none
frame_swap_desde i (suc quedan) = do
  let resto = frame_swap_desde (i + 1) quedan
  lock mutex_bitmap_mmap
  libre ← gets λ s. s.bitmap_swap_file i
  if libre then tomar_swap i else (do unlock mutex_bitmap_mmap; resto)

unfoldable pub frame_swap_libre : M (Option ℕ)
unfolding frame_swap_desde
frame_swap_libre = do total ← gets λ s. s.total_frame_num_swap; frame_swap_desde 0 total

unfoldable pub liberar_frame : ℕ → M (Unit {0})
liberar_frame numero_frame = do
  lock mutex_bitmap_heap
  set_bitmap numero_frame true
  unlock mutex_bitmap_heap

unfoldable pub liberar_frame_swap : ℕ → M (Unit {0})
liberar_frame_swap frame = do
  lock mutex_bitmap_mmap
  set_bitmap_swap_file frame true
  unlock mutex_bitmap_mmap
