-- ===== src/Sac/Disco.antt =====
-- The disk of filesystem/sac_servidor.h: the table of nodes, the blocks of pointers, the bitmap, and
-- the mutexes of sac_handlers.c. The bit array of the commons library is a parameter, with what its
-- documentation says of each function.
use tp_sistemas_operativos.Base.{ℕ, ◌≡◌, Bool, true, false, ◌==◌, if◌then◌else◌, List}
use tp_sistemas_operativos.Wire.Bytes.{Buffer}

pub record Bitarrays : Type 1 where
  pub Bits : Type 0
  pub bitarray_test_bit : Bits → ℕ → Bool
  pub bitarray_set_bit : Bits → ℕ → Bits
  pub bitarray_clean_bit : Bits → ℕ → Bits
  pub bitarray_get_max_bit : Bits → ℕ
  pub test_set :
      (b : Bits) (i j : ℕ)
      → bitarray_test_bit (bitarray_set_bit b i) j
        ≡ (if j == i then true else bitarray_test_bit b j)
  pub test_clean :
      (b : Bits) (i j : ℕ)
      → bitarray_test_bit (bitarray_clean_bit b i) j
        ≡ (if j == i then false else bitarray_test_bit b j)
  pub max_set :
      (b : Bits) (i : ℕ) → bitarray_get_max_bit (bitarray_set_bit b i) ≡ bitarray_get_max_bit b
  pub max_clean :
      (b : Bits) (i : ℕ) → bitarray_get_max_bit (bitarray_clean_bit b i) ≡ bitarray_get_max_bit b

abbrev pub bloque_size : ℕ
bloque_size = 4096

abbrev pub punteros_a_bloques_datos : ℕ
punteros_a_bloques_datos = 1024

abbrev pub blkindirect : ℕ
blkindirect = 1000

-- A C string: its bytes up to the NUL, which is left out.
abbrev pub Cadena : Type 0
Cadena = List ℕ

abbrev pub max_number_of_files : ℕ
max_number_of_files = 1024

abbrev pub max_name_size : ℕ
max_name_size = 71

-- `GFile`. A write past the end of `indirect_blocks_array` is kept apart here.
pub record Gfile : Type 0 where
  pub state : ℕ
  pub fname : Cadena
  pub parent_dir_block : ℕ
  pub file_size : ℕ
  pub create_date : ℕ
  pub modify_date : ℕ
  pub indirect_blocks_array : ℕ → ℕ

module _ ⦃c : Bitarrays⦄ where
  open c use {Bits}

  -- The globals of sac_servidor.h and the mutexes `s_bitmap` and `s_tablaDeNodos`. `bloques` are the
  -- blocks of the disk as arrays of pointers and `datos` their bytes, one block after the other: a
  -- block has the one use or the other, and the two views are kept apart. `lecturas_reloj` counts the
  -- calls of `time`.
  pub record Disco : Type 0 where
    pub tabla_de_nodos : ℕ → Gfile
    pub bloques : ℕ → ℕ → ℕ
    pub datos : Buffer
    pub bitmap : Bits
    pub bloque_inicio_tabla_de_nodos : ℕ
    pub bloque_inicio_datos : ℕ
    pub s_bitmap : Bool
    pub s_tabla_de_nodos : Bool
    pub lecturas_reloj : ℕ

-- What the nodes take from outside: `string_split` with "/" of the commons library, `dirname` and
-- `basename` of the operating system and its clock, the n-th reading of it. No law is assumed here.
pub record Rutas : Type 0 where
  pub string_split : Cadena → List Cadena
  pub dirname : Cadena → Cadena
  pub basename : Cadena → Cadena
  pub time : ℕ → ℕ
