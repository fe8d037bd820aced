-- ===== src/Muse/State.antt =====
-- The structs of memoria/main_memory.h and the globals of main_memory.c.
use Prim.Native.String.{String}
use tp_sistemas_operativos.Base.{ℕ, Bool, true, false, Option, List}
use tp_sistemas_operativos.Commons.{Ref}
use tp_sistemas_operativos.Wire.Bytes.{Buffer}

-- `page`. `fr` is the distance from `MAIN_MEMORY` of a page that is present, and the number of a
-- frame of the swap file of one that is not.
pub record Page : Type 0 where
  pub is_modify : Bool
  pub is_used : Bool
  pub is_present : Bool
  pub fr : ℕ

-- `archivoMMAP`; an empty `path_archivo` is the `NULL` of a file that was unmapped.
pub record ArchivoMmap : Type 0 where
  pub path_archivo : Option String
  pub archivo : Buffer
  pub tabla_paginas : List Ref
  pub programas : List ℕ

pub record Segment : Type 0 where
  pub is_heap : Bool
  pub base : ℕ
  pub limit : ℕ
  pub page_table : List Ref
  pub archivo_mapeado : Ref
  pub tipo_map : ℕ
  pub tam_archivo_mmap : ℕ

pub record Program : Type 0 where
  pub pid : ℕ
  pub segment_table : List Ref
  pub using_memory : ℕ

pub record HeapMetadata : Type 0 where
  pub size : ℕ
  pub is_free : Bool

-- The mutexes of main_memory.h.
pub data Mutex : Type 0 where
  mutex_bitmap_heap mutex_bitmap_mmap mutex_mm mutex_clock mutex_lock : Mutex

abbrev pub same_mutex : Mutex → Mutex → Bool
same_mutex mutex_bitmap_heap mutex_bitmap_heap = true
same_mutex mutex_bitmap_mmap mutex_bitmap_mmap = true
same_mutex mutex_mm mutex_mm = true
same_mutex mutex_clock mutex_clock = true
same_mutex mutex_lock mutex_lock = true
same_mutex _ _ = false

-- How many flags `BITMAP` and `BITMAP_SWAP_FILE` of main_memory.c have.
abbrev pub flags_de_bitmap : ℕ
flags_de_bitmap = 140

abbrev pub flags_de_swap : ℕ
flags_de_swap = 2048

-- The globals of main_memory.c, the objects at each pointer, and the bytes of the main memory and of
-- the swap file. The two bitmaps are total here, so the definitions follow the code as long as it has
-- no more frames than flags: outside of these arrays it reads and writes other globals.
pub record Muse : Type 0 where
  pub page_size : ℕ
  pub total_frame_num : ℕ
  pub total_frame_num_swap : ℕ
  pub bitmap : ℕ → Bool
  pub bitmap_swap_file : ℕ → Bool
  pub main_memory : Buffer
  pub swapfile : Buffer
  pub pages : Ref → Option Page
  pub segments : Ref → Option Segment
  pub programs : Ref → Option Program
  pub archivos : Ref → Option ArchivoMmap
  pub next_ref : Ref
  pub program_list : List Ref
  pub lista_archivos_mmap : List Ref
  pub segmento_clock : ℕ
  pub pagina_clock : ℕ
  pub held : Mutex → Bool
