-- ===== src/Ejemplos/Sac.antt =====
-- A small disk of SAC: 16 blocks, those behind the first 8 for data.
use tp_sistemas_operativos.Base.{
  ℕ, ◌≤◌, ◌<◌, ◌≡◌, ◌≢◌, refl, Bool, true, false, Option, none, some, ◌==◌, ltb, arith,
  if◌then◌else◌, [], ◌∷◌,
}
use tp_sistemas_operativos.Base.Int.{ℤ, pos, negsuc}
use tp_sistemas_operativos.Sac.Disco.{Bitarrays, Disco, Gfile}
use tp_sistemas_operativos.Sac.Bloques.{
  setear_posicion, posicion_de_nodo, agregar_primero, agregar_en, agregar_nodo, buscar_vacio,
  get_bloque_vacio, contar_libres, cantidad_bloques_libres,
}
use tp_sistemas_operativos.Sac.Vacios.{ocupar, get_bloque_vacio-libre, get_bloque_vacio-lleno}
use tp_sistemas_operativos.Sac.Distintos.{get_bloque_vacio-distintos}
use tp_sistemas_operativos.Sac.Escritura.{ubicar_bloque}
use tp_sistemas_operativos.Sac.Agregar.{bloque_de, agregar_nodo-encuentra}

-- A bit array: its bits and how many they are.
instance abbrev pub bits : Bitarrays
bits = record {
  Bits = (ℕ → Bool) × ℕ;
  bitarray_test_bit = λ b i. b.0 i;
  bitarray_set_bit = λ b i. ((λ j. if j == i then true else b.0 j), b.1);
  bitarray_clean_bit = λ b i. ((λ j. if j == i then false else b.0 j), b.1);
  bitarray_get_max_bit = λ b. b.1;
  test_set = λ b i j. refl;
  test_clean = λ b i j. refl;
  max_set = λ b i. refl;
  max_clean = λ b i. refl;
}

abbrev archivo : Gfile
archivo = record {
  state = 1;
  fname = 110 ∷ 111 ∷ [];
  parent_dir_block = 0;
  file_size = 0;
  create_date = 0;
  modify_date = 0;
  indirect_blocks_array = λ i. 0;
}

-- The first `ocupados` blocks are taken.
abbrev con_ocupados : ℕ → Disco ⦃c = bits⦄
con_ocupados ocupados = record {
  tabla_de_nodos = λ n. archivo;
  bloques = λ b i. 0;
  datos = λ i. 0;
  bloque_inicio_tabla_de_nodos = 2;
  bitmap = ((λ i. ltb i ocupados), 16);
  bloque_inicio_datos = 9;
  s_bitmap = false;
  s_tabla_de_nodos = false;
  lecturas_reloj = 0;
}

seis_libres : cantidad_bloques_libres ⦃c = bits⦄ (con_ocupados 10) ≡ some (6, con_ocupados 10)
unfolding cantidad_bloques_libres contar_libres
seis_libres = refl

get_bloque_vacio-libre_example :
    (k : ℕ) × (get_bloque_vacio ⦃c = bits⦄ (con_ocupados 10)
      ≡ some (pos k, ocupar ⦃c = bits⦄ (con_ocupados 10) k))
    × (8 ≤ k)
    × (k < 16)
    × (ltb k 10 ≡ false)
    × (cantidad_bloques_libres ⦃c = bits⦄ (ocupar ⦃c = bits⦄ (con_ocupados 10) k)
        ≡ some (5, ocupar ⦃c = bits⦄ (con_ocupados 10) k))
get_bloque_vacio-libre_example =
    get_bloque_vacio-libre ⦃c = bits⦄ (con_ocupados 10) 5 refl seis_libres

ninguno_libre : cantidad_bloques_libres ⦃c = bits⦄ (con_ocupados 16) ≡ some (0, con_ocupados 16)
unfolding cantidad_bloques_libres contar_libres
ninguno_libre = refl

get_bloque_vacio-lleno_example :
    (get_bloque_vacio ⦃c = bits⦄ (con_ocupados 16)
      ≡ some (negsuc 0, record (con_ocupados 16) { s_bitmap = true }))
    × (cantidad_bloques_libres ⦃c = bits⦄ (record (con_ocupados 16) { s_bitmap = true }) ≡ none)
get_bloque_vacio-lleno_example =
    get_bloque_vacio-lleno ⦃c = bits⦄ (con_ocupados 16) refl (omega arith) ninguno_libre

abbrev disco_de : Option (ℤ × Disco ⦃c = bits⦄) → Disco ⦃c = bits⦄
disco_de none = con_ocupados 16
disco_de (some (r, d)) = d

abbrev agregado : Disco ⦃c = bits⦄
agregado = disco_de (agregar_nodo ⦃c = bits⦄ (con_ocupados 10) 3 9)

agregado_ok : agregar_nodo ⦃c = bits⦄ (con_ocupados 10) 3 9 ≡ some (pos 0, agregado)
unfolding agregar_nodo agregar_en agregar_primero posicion_de_nodo setear_posicion get_bloque_vacio
    buscar_vacio
agregado_ok = refl

agregar_nodo-encuentra_example :
    (bloque_de ⦃c = bits⦄ agregado 3 0 ≡ 9)
    × (ubicar_bloque ⦃c = bits⦄ agregado 3 0 ≡ 9)
    × (agregado.s_tabla_de_nodos ≡ false)
agregar_nodo-encuentra_example =
    agregar_nodo-encuentra ⦃c = bits⦄ (con_ocupados 10) agregado 3 9 (omega arith) agregado_ok

abbrev primero : Disco ⦃c = bits⦄
primero = disco_de (get_bloque_vacio ⦃c = bits⦄ (con_ocupados 10))

abbrev segundo : Disco ⦃c = bits⦄
segundo = disco_de (get_bloque_vacio ⦃c = bits⦄ primero)

primero_ok : get_bloque_vacio ⦃c = bits⦄ (con_ocupados 10) ≡ some (pos 10, primero)
unfolding get_bloque_vacio buscar_vacio
primero_ok = refl

segundo_ok : get_bloque_vacio ⦃c = bits⦄ primero ≡ some (pos 11, segundo)
unfolding get_bloque_vacio buscar_vacio
segundo_ok = refl

get_bloque_vacio-distintos_example : ◌≢◌ {A = ℕ} 10 11
get_bloque_vacio-distintos_example =
    get_bloque_vacio-distintos ⦃c = bits⦄ (con_ocupados 10) primero segundo 10 11 (omega arith)
      primero_ok segundo_ok
