-- ===== src/Ejemplos/Muse.antt =====
-- A small memory of MUSE: pages of 8 bytes, four frames, and one program with a segment of two pages.
use tp_sistemas_operativos.Base.{
  ℕ, zero, suc, ◌+◌, ◌*◌, ◌%◌, ◌≤◌, ◌<◌, ◌≡◌, ◌⊎◌, inl, inr, refl, true, false, Option, none, some,
  [], ◌∷◌, ◌++◌, ◌==◌, ltb, arith, if◌then◌else◌, get_or,
}
use tp_sistemas_operativos.Base.Int.{pos, negsuc}
use tp_sistemas_operativos.Commons.{Lists}
use tp_sistemas_operativos.Comandos.{ok, gets, or_fault, pure, blocks, ◌>>=◌, ◌>>◌}
use tp_sistemas_operativos.Ejemplos.Maquina.{listas}
use tp_sistemas_operativos.Muse.State.{Page, Segment, Program, HeapMetadata, Muse}
use tp_sistemas_operativos.Muse.Run.{load_program, load_segment}
use tp_sistemas_operativos.Muse.Metadata.Refina.{segmento_bytes}
use tp_sistemas_operativos.Muse.Frames.{number_of_free_frames, frames_needed}
use tp_sistemas_operativos.Muse.Frames.Primero.{EsPrimero}
use tp_sistemas_operativos.Muse.Frames.Cuenta.{number_of_free_frames-cuantos, frames_needed-EsMenor}
use tp_sistemas_operativos.Muse.Clock.{se_hace_la_vistima}
use tp_sistemas_operativos.Muse.Clock.Victima.{Libres, tras_vistima, vistima-efecto}
use tp_sistemas_operativos.Muse.Metadata.{buscar_metadata_por_direccion, modificar_metadata, u32}
use tp_sistemas_operativos.Muse.Metadata.{metadata_de, proxima_metadata_libre_con_size}
use tp_sistemas_operativos.Muse.Metadata.Bloques.{EnMemoria, Tramo}
use tp_sistemas_operativos.Muse.Metadata.Busqueda.{elegido, direccion}
use tp_sistemas_operativos.Muse.Metadata.Eleccion.{
  EsBloque, proxima_metadata-elegido, proxima_metadata-libre,
}
use tp_sistemas_operativos.Muse.Metadata.Residente.{Residente}
use tp_sistemas_operativos.Muse.Metadata.RoundTrip.{modificar-buscar_metadata}
use tp_sistemas_operativos.Muse.Malloc.{memory_malloc, partir_bloque}
use tp_sistemas_operativos.Muse.Malloc.Partidos.{con, EnMemoria-con, partidos}
use tp_sistemas_operativos.Muse.Malloc.Partir.{partir_bloque-partidos}
use tp_sistemas_operativos.Muse.Programs.{search_program, search_desde, busca_segmento, busca_desde}
use tp_sistemas_operativos.Muse.Programs.Busca.{
  contiene, search_program-EsPrimero, busca_segmento-EsPrimero,
}
use tp_sistemas_operativos.Muse.Lectura.{leidos, memory_get}
use tp_sistemas_operativos.Muse.Lectura.Lee.{memory_get-lee}
use tp_sistemas_operativos.Muse.Malloc.Rechazo.{memory_malloc-bloquea}
use tp_sistemas_operativos.Wire.Bytes.{read_bytes, of_le}

instance abbrev las_listas : Lists
las_listas = listas

-- The pages are in the frames 2 and 0; both are in use.
abbrev pagina_0 : Page
pagina_0 = record { is_modify = false; is_used = true; is_present = true; fr = 16 }

abbrev pagina_1 : Page
pagina_1 = record { is_modify = true; is_used = true; is_present = true; fr = 0 }

abbrev pagina : ℕ → Page
pagina zero = pagina_0
pagina (suc i) = pagina_1

abbrev heap : Segment
heap = record {
  is_heap = true;
  base = 0;
  limit = 16;
  page_table = 10 ∷ 11 ∷ [];
  archivo_mapeado = 0;
  tipo_map = 0;
  tam_archivo_mmap = 0;
}

abbrev programa : Program
programa = record { pid = 7; segment_table = 20 ∷ []; using_memory = 0 }

abbrev memoria : Muse
memoria = record {
  page_size = 8;
  total_frame_num = 4;
  total_frame_num_swap = 4;
  bitmap = λ i. i == 1;
  bitmap_swap_file = λ i. ltb 1 i;
  main_memory = λ i. i % 256;
  swapfile = λ i. 0;
  pages = λ r. if r == 10 then some pagina_0 else if r == 11 then some pagina_1 else none;
  segments = λ r. if r == 20 then some heap else none;
  programs = λ r. if r == 30 then some programa else none;
  archivos = λ r. none;
  next_ref = 40;
  program_list = 30 ∷ [];
  lista_archivos_mmap = [];
  segmento_clock = 0;
  pagina_clock = 0;
  held = λ k. false;
}

memoria-Libres : Libres memoria
memoria-Libres = record { mm = refl; heap = refl; mmap = refl }

number_of_free_frames-cuantos_example : number_of_free_frames memoria ≡ ok 3 memoria
number_of_free_frames-cuantos_example =
    number_of_free_frames-cuantos memoria refl refl (omega arith) (omega arith)

frames_needed-EsMenor_example :
    (13 ≤ frames_needed 8 13 * 8) × (13 ≤ 2 * 8 → frames_needed 8 13 ≤ 2)
frames_needed-EsMenor_example = frames_needed-EsMenor 8 13 2 (omega arith)

vistima-efecto_example :
    (o : Option ℕ) × EsPrimero memoria.bitmap_swap_file 0 4 o
    × (se_hace_la_vistima 10 memoria ≡ ok 2 (tras_vistima memoria 10 pagina_0 o))
vistima-efecto_example =
    vistima-efecto 10 pagina_0 memoria memoria-Libres refl (omega arith) (omega arith)

memory_malloc-bloquea_example :
    (t : Muse) × (memory_malloc 5 (negsuc 3) 7 memoria ≡ ok 0 t)
    × (memory_malloc 9 (pos 12) 8 t ≡ blocks)
memory_malloc-bloquea_example =
    memory_malloc-bloquea 5 8 (negsuc 3) (pos 12) 7 8 memoria (omega arith) refl

paginas_cargadas : (i : ℕ) → i < 2 → memoria.pages (get_or heap.page_table i 0) ≡ some (pagina i)
paginas_cargadas zero h = refl
paginas_cargadas (suc zero) h = refl
paginas_cargadas (suc (suc i)) h = absurd (omega (arith, h))

paginas_presentes : (i : ℕ) → i < 2 → (pagina i).is_present ≡ true
paginas_presentes zero h = refl
paginas_presentes (suc i) h = refl

paginas_separadas :
    (i j : ℕ)
    → i < 2
    → j < 2
    → i ≡ j ⊎ ((pagina i).fr + 8 ≤ (pagina j).fr) ⊎ ((pagina j).fr + 8 ≤ (pagina i).fr)
paginas_separadas zero zero h k = inl refl
paginas_separadas zero (suc j) h k = inr (inr (omega arith))
paginas_separadas (suc i) zero h k = inr (inl (omega arith))
paginas_separadas (suc i) (suc j) h k = inl (omega (arith, h, k))

memoria-Residente : Residente memoria heap pagina 2
memoria-Residente = record {
  cargada = paginas_cargadas;
  presente = paginas_presentes;
  separada = paginas_separadas;
}

-- The metadata at address 5 stands across the two pages.
modificar-buscar_metadata_example :
    (mm : ℕ → ℕ) × (m : HeapMetadata) × (modificar_metadata 9 5 20 33 true memoria
      ≡ ok tt (record memoria { main_memory = mm }))
    × (buscar_metadata_por_direccion 9 5 20 (record memoria { main_memory = mm })
        ≡ ok (record { size = u32 33; is_free = true }) (record memoria { main_memory = mm }))
    × (buscar_metadata_por_direccion 9 0 20 memoria ≡ ok m memoria)
    × (buscar_metadata_por_direccion 9 0 20 (record memoria { main_memory = mm })
        ≡ ok m (record memoria { main_memory = mm }))
modificar-buscar_metadata_example =
    modificar-buscar_metadata 9 20 heap pagina 2 memoria 5 0 33 true refl memoria-Residente
      (omega arith) (omega arith) (omega arith) (inl (omega arith))

programas_cargados :
    (i : ℕ) → i < 1 → memoria.programs (get_or memoria.program_list i 0) ≡ some programa
programas_cargados zero h = refl
programas_cargados (suc i) h = absurd (omega (arith, h))

-- The same segment with two free blocks, of 2 and of 4 bytes; the metadata of the second is cut.
abbrev con_bloques : Muse
con_bloques = record memoria {
  main_memory = λ i.
      if i == 16 then 2 else if i == 20 then 1 else if i == 23 then 4 else if i == 3 then 1 else 0;
}

abbrev bloque_0 : HeapMetadata
bloque_0 = record { size = 2; is_free = true }

abbrev bloque_1 : HeapMetadata
bloque_1 = record { size = 4; is_free = true }

con_bloques-EnMemoria : EnMemoria 9 20 heap pagina 2 con_bloques
con_bloques-EnMemoria = record {
  segmento = refl;
  residente = record {
    cargada = paginas_cargadas;
    presente = paginas_presentes;
    separada = paginas_separadas;
  };
  ancho = omega arith;
  limite = omega arith;
}

con_bloques-Tramo :
    Tramo 9 20 heap pagina 2 con_bloques con_bloques-EnMemoria 0 (bloque_0 ∷ bloque_1 ∷ [])
unfolding metadata_de read_bytes of_le
con_bloques-Tramo = record { bloques = (refl, (refl, tt)); fin = refl; cabe = omega arith }

proxima_metadata-elegido_example :
    proxima_metadata_libre_con_size 9 0 20 3 9 con_bloques
    ≡ ok (direccion 0 (elegido 3 0 bloque_0 (bloque_1 ∷ []))) con_bloques
proxima_metadata-elegido_example =
    proxima_metadata-elegido 9 20 heap pagina 2 con_bloques con_bloques-EnMemoria 3 bloque_0
      (bloque_1 ∷ []) con_bloques-Tramo (omega arith)

proxima_metadata-libre_example :
    (proxima_metadata_libre_con_size 9 0 20 3 9 con_bloques ≡ ok none con_bloques)
    ⊎ ((d : ℕ) × (b : HeapMetadata) × (proxima_metadata_libre_con_size 9 0 20 3 9 con_bloques
          ≡ ok (some (0 + d)) con_bloques)
        × EsBloque 0 (bloque_0 ∷ bloque_1 ∷ []) d b
        × (3 ≤ b.size)
        × (b.is_free ≡ true))
proxima_metadata-libre_example =
    proxima_metadata-libre 9 20 heap pagina 2 con_bloques con_bloques-EnMemoria 3 bloque_0 bloque_1
      [] con_bloques-Tramo (omega arith)

-- The same segment with one free block of 11 bytes. The metadata of the second part is cut.
abbrev con_uno : Muse
con_uno = record memoria { main_memory = λ i. if i == 16 then 11 else if i == 20 then 1 else 0 }

abbrev bloque_unico : HeapMetadata
bloque_unico = record { size = 11; is_free = true }

con_uno-EnMemoria : EnMemoria 9 20 heap pagina 2 con_uno
con_uno-EnMemoria = record {
  segmento = refl;
  residente = record {
    cargada = paginas_cargadas;
    presente = paginas_presentes;
    separada = paginas_separadas;
  };
  ancho = omega arith;
  limite = omega arith;
}

con_uno-Tramo : Tramo 9 20 heap pagina 2 con_uno con_uno-EnMemoria 0 ([] ++ bloque_unico ∷ [])
unfolding metadata_de read_bytes of_le
con_uno-Tramo = record { bloques = (refl, tt); fin = refl; cabe = omega arith }

partir_bloque-partidos_example :
    (mm : ℕ → ℕ) × (partir_bloque 9 20 (0 + 0) 2 con_uno ≡ ok tt (con con_uno mm))
    × Tramo 9 20 heap pagina 2
        (con con_uno mm)
        (EnMemoria-con 9 20 heap pagina 2 con_uno mm con_uno-EnMemoria)
        0
        (partidos [] bloque_unico [] 2)
partir_bloque-partidos_example =
    partir_bloque-partidos 9 20 heap pagina 2 con_uno con_uno-EnMemoria [] [] bloque_unico 2
      con_uno-Tramo (omega arith) (omega arith)

-- Six bytes from address 4 on stand in both pages: 20 to 23, and 0 and 1 behind.
memory_get-lee_example :
    memory_get 9 0 4 6 7 memoria
    ≡ ok (leidos (read_bytes (segmento_bytes memoria pagina) 4 6)) memoria
unfolding search_program search_desde busca_segmento busca_desde ◌>>=◌ gets load_program
    load_segment or_fault pure
memory_get-lee_example =
    memory_get-lee 9 heap pagina 2 0 4 6 7 0 0 20 programa memoria refl refl refl refl refl refl
      refl memoria-Residente (omega arith) refl (omega arith) (omega arith)

search_program-EsPrimero_example :
    (o : Option ℕ) × (search_program 7 memoria ≡ ok o memoria)
    × EsPrimero (λ k. programa.pid == 7) 0 1 o
search_program-EsPrimero_example =
    search_program-EsPrimero (λ k. programa) 7 memoria programas_cargados

segmentos_del_programa :
    (k : ℕ) → k < 1 → memoria.segments (get_or programa.segment_table k 0) ≡ some heap
segmentos_del_programa zero h = refl
segmentos_del_programa (suc k) h = absurd (omega (arith, h))

busca_segmento-EsPrimero_example :
    (o : Option ℕ) × (busca_segmento 30 12 memoria ≡ ok o memoria)
    × EsPrimero (λ k. contiene 12 heap) 0 1 o
busca_segmento-EsPrimero_example =
    busca_segmento-EsPrimero (λ k. heap) 30 programa 12 memoria refl segmentos_del_programa
