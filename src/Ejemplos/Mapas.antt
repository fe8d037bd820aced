-- ===== src/Ejemplos/Mapas.antt =====
-- A mapped file of MUSE that is made, written to, synchronized and shared.
use tp_sistemas_operativos.Base.{ℕ, ◌≡◌, refl, true, false, Option, none, some, [], ◌%◌}
use tp_sistemas_operativos.Commons.{Lists}
use tp_sistemas_operativos.Comandos.{Run, ok, fault, blocks, agotado, ◌>>=◌, ◌>>◌}
use tp_sistemas_operativos.Ejemplos.Maquina.{listas}
use tp_sistemas_operativos.Muse.State.{Muse}
use tp_sistemas_operativos.Muse.Run.{new_program, load_page, set_bitmap, update_page}
use tp_sistemas_operativos.Muse.Mapas.{Archivos, memory_map, memory_unmap}
use tp_sistemas_operativos.Muse.Sincronia.{memory_sync}
use tp_sistemas_operativos.Muse.Frames.{
  frames_needed, number_of_free_frames_upcm, contar_heap, contar_swap, sumar_flags,
}
use tp_sistemas_operativos.Muse.Marcos.{page_with_free_size, tomar_marco}

instance abbrev lista_de_commons : Lists
lista_de_commons = listas

instance abbrev archivos : Archivos
archivos = record { open_rdwr = λ p. some 3; mmap = λ l f d. λ i. i % 256 }

abbrev vacia : Muse
vacia = record {
  page_size = 8;
  total_frame_num = 4;
  total_frame_num_swap = 4;
  bitmap = λ i. true;
  bitmap_swap_file = λ i. true;
  main_memory = λ i. 0;
  swapfile = λ i. 0;
  pages = λ r. none;
  segments = λ r. none;
  programs = λ r. none;
  archivos = λ r. none;
  next_ref = 40;
  program_list = [];
  lista_archivos_mmap = [];
  segmento_clock = 0;
  pagina_clock = 0;
  held = λ k. false;
}

abbrev resultado : {A : Type 0} → Run Muse A → Option A
resultado (ok a s) = some a
resultado fault = none
resultado blocks = none
resultado agotado = none

-- Two maps of 16 bytes: the second segment starts one behind the limit of the first.
abbrev dos_mapas : Option ℕ
dos_mapas = resultado ((memory_map "notas" 16 1 7 >> memory_map "notas" 16 1 7) vacia)

-- What is read of a synchronized page: 8 bytes at the start of a file of 16, which goes well.
abbrev mapa_y_sync : Option ℕ
mapa_y_sync = resultado ((memory_map "notas" 16 1 7 >>= λ base. memory_sync 5 0 base 8 7) vacia)

-- The last unmap of a file is a fault.
abbrev mapa_y_unmap : Option ℕ
mapa_y_unmap = resultado ((memory_map "notas" 16 1 7 >>= λ base. memory_unmap 0 base 7) vacia)

abbrev dos_y_unmap : Option ℕ
dos_y_unmap = resultado (
    (memory_map "notas" 16 1 7 >> (memory_map "notas" 16 1 9 >>= λ base. memory_unmap 0 base 9))
      vacia)

segunda_base : dos_mapas ≡ some 17
unfolding memory_map new_program
segunda_base = refl

sincronizado : mapa_y_sync ≡ some 0
unfolding memory_map new_program memory_sync frames_needed load_page number_of_free_frames_upcm
    contar_heap contar_swap sumar_flags page_with_free_size tomar_marco set_bitmap update_page
sincronizado = refl

ultimo_unmap : mapa_y_unmap ≡ none
unfolding memory_map new_program memory_unmap
ultimo_unmap = refl

otro_unmap : dos_y_unmap ≡ some 0
unfolding memory_map new_program memory_unmap
otro_unmap = refl
