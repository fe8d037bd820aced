-- ===== src/Muse/Clock/Victima.antt =====
-- `se_hace_la_vistima`: what it leaves of the page, the frame and the swap file.
use tp_sistemas_operativos.Base.{
  ℕ, put, ◌*◌, ◌/◌, ◌<◌, ◌≤◌, ◌≡◌, refl, ap, ◌∙◌, true, false, Option, none, some,
}
use tp_sistemas_operativos.Commons.{Ref}
use tp_sistemas_operativos.Comandos.{ok, pure, gets, modify, ◌>>=◌, ◌>>◌}
use tp_sistemas_operativos.Comandos.Eval.{bind-ok, bind-gets, then-ok, then-modify}
use tp_sistemas_operativos.Muse.State.{
  flags_de_bitmap, flags_de_swap, Page, Muse, mutex_bitmap_heap, mutex_bitmap_mmap, mutex_mm,
}
use tp_sistemas_operativos.Muse.Run.{load_page, unlock, set_bitmap}
use tp_sistemas_operativos.Muse.Run.Locks.{
  tomado, lock_then, unlock_then, soltado-tomado, load_page-ok, update_page-ok,
}
use tp_sistemas_operativos.Muse.Frames.{primer_flag, frame_swap_libre}
use tp_sistemas_operativos.Muse.Frames.Primero.{
  EsPrimero, primer_flag-EsPrimero, frame_swap_libre-ok, con_swap_tomado,
}
use tp_sistemas_operativos.Muse.Clock.{
  copiar_a_swap, mandar_a, mandar_al_archivo_swap_toda_la_pagina_que_esta_en, marcar_en_swap,
  se_hace_la_vistima,
}
use tp_sistemas_operativos.Wire.Bytes.{read_bytes, write_bytes}

-- The swap file once a frame of the main memory is copied to its frame `m`.
abbrev pub copiado : Muse → ℕ → ℕ → Muse
copiado s n m = record s {
  swapfile =
      write_bytes s.swapfile (m * s.page_size)
        (read_bytes s.main_memory (n * s.page_size) s.page_size);
}

copiar_a_swap-ok :
    (n m : ℕ) (s : Muse) → s.held mutex_mm ≡ false → copiar_a_swap n m s ≡ ok tt (copiado s n m)
unfolding copiar_a_swap ◌>>=◌ ◌>>◌ gets unlock modify
copiar_a_swap-ok n m s h =
    lock_then mutex_mm _ s h ∙ ap (λ t. ok tt (copiado t n m)) (soltado-tomado mutex_mm s h)

-- The state after a page `p` of frame `n` is chosen, by the frame of the swap file for it, if any.
abbrev pub tras_vistima : Muse → Ref → Page → Option ℕ → Muse
tras_vistima s pag p none = record s { bitmap = put s.bitmap (p.fr / s.page_size) true }
tras_vistima s pag p (some m) = record s {
  bitmap = put s.bitmap (p.fr / s.page_size) true;
  bitmap_swap_file = put s.bitmap_swap_file m false;
  swapfile =
      write_bytes s.swapfile (m * s.page_size)
        (read_bytes s.main_memory (p.fr / s.page_size * s.page_size) s.page_size);
  pages = put s.pages pag (some (record p { fr = m; is_present = false }));
}

-- The swap file once the frame `n` of the main memory is sent to it.
abbrev enviado : Muse → ℕ → Option ℕ → Muse
enviado s n none = s
enviado s n (some m) = copiado (con_swap_tomado s (some m)) n m

mandar_a-ok :
    (n : ℕ) (s : Muse) (o : Option ℕ)
    → s.held mutex_mm ≡ false
    → mandar_a n o (con_swap_tomado s o) ≡ ok o (enviado s n o)
unfolding mandar_a pure
mandar_a-ok n s none h = refl
mandar_a-ok n s (some m) h =
    let s1 : Muse = con_swap_tomado s (some m) in
    then-ok (copiar_a_swap n m) _ s1 (copiado s1 n m) tt (copiar_a_swap-ok n m s1 h)

marcar_en_swap-ok :
    (pag : Ref) (p : Page) (s : Muse) (o : Option ℕ)
    → s.pages pag ≡ some p
    → marcar_en_swap pag o (
        enviado
          (record s { bitmap = put s.bitmap (p.fr / s.page_size) true })
          (p.fr / s.page_size)
          o)
      ≡ ok tt (tras_vistima s pag p o)
unfolding marcar_en_swap pure
marcar_en_swap-ok pag p s none e = refl
marcar_en_swap-ok pag p s (some m) e =
    update_page-ok pag (λ q. record q { fr = m; is_present = false }) _ p e

-- The mutexes that the choice of a victim takes are free.
pub record Libres (s : Muse) : Type 0 where
  pub mm : s.held mutex_mm ≡ false
  pub heap : s.held mutex_bitmap_heap ≡ false
  pub mmap : s.held mutex_bitmap_mmap ≡ false

pub vistima-ok :
    (pag : Ref) (p : Page) (s : Muse)
    → Libres s
    → s.pages pag ≡ some p
    → se_hace_la_vistima pag s
      ≡ ok
          (p.fr / s.page_size)
          (tras_vistima s pag p (primer_flag s.bitmap_swap_file 0 s.total_frame_num_swap))
unfolding pure se_hace_la_vistima set_bitmap mandar_al_archivo_swap_toda_la_pagina_que_esta_en
vistima-ok pag p s l e =
    let n : ℕ = p.fr / s.page_size in
    let o : Option ℕ = primer_flag s.bitmap_swap_file 0 s.total_frame_num_swap in
    let s1 : Muse = record s { bitmap = put s.bitmap n true } in
    lock_then mutex_mm _ s l.mm
    ∙ bind-ok (load_page pag) _ (tomado mutex_mm s) (tomado mutex_mm s) p
        (load_page-ok pag (tomado mutex_mm s) p e)
    ∙ bind-gets _ _ (tomado mutex_mm s)
    ∙ unlock_then mutex_mm _ s l.mm
    ∙ lock_then mutex_bitmap_heap _ s l.heap
    ∙ then-modify _ _ (tomado mutex_bitmap_heap s)
    ∙ unlock_then mutex_bitmap_heap _ s1 l.heap
    ∙ bind-ok (mandar_al_archivo_swap_toda_la_pagina_que_esta_en n) _ s1 (enviado s1 n o) o (
        bind-ok frame_swap_libre _ s1 (con_swap_tomado s1 o) o (frame_swap_libre-ok s1 l.mmap)
        ∙ mandar_a-ok n s1 o l.mm)
    ∙ then-ok (marcar_en_swap pag o) _ (enviado s1 n o) (tras_vistima s pag p o) tt
        (marcar_en_swap-ok pag p s o e)

-- With its mutexes free, its page there, the frame of the page inside the flags of `BITMAP` and those
-- of the swap file inside the flags of `BITMAP_SWAP_FILE`, `se_hace_la_vistima` returns the frame of the page,
-- which is free then. With `m` the least free frame of the swap file, `m` is taken and holds the
-- bytes of the frame, and the page is not present and has `m`. With no free frame there, the page
-- keeps its frame and stays present, although the frame is free.
pub vistima-efecto :
    (pag : Ref) (p : Page) (s : Muse)
    → Libres s
    → s.pages pag ≡ some p
    → p.fr / s.page_size < flags_de_bitmap
    → s.total_frame_num_swap ≤ flags_de_swap
    → (o : Option ℕ) × EsPrimero s.bitmap_swap_file 0 s.total_frame_num_swap o
      × (se_hace_la_vistima pag s ≡ ok (p.fr / s.page_size) (tras_vistima s pag p o))
vistima-efecto pag p s l e dentro dentro_de_swap = (
  primer_flag s.bitmap_swap_file 0 s.total_frame_num_swap,
  primer_flag-EsPrimero s.bitmap_swap_file 0 s.total_frame_num_swap,
  vistima-ok pag p s l e,
)
