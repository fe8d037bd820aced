-- ===== src/Ejemplos/SacArchivos.antt =====
-- The file /d/e/f of a disk of SAC, with its bytes.
use tp_sistemas_operativos.Base.{
  ℕ, put, ◌+◌, ◌<◌, ◌≡◌, refl, false, [], ◌∷◌, ◌==◌, get_or, arith, if◌then◌else◌, inl,
}
use tp_sistemas_operativos.Base.Int.{pos, ◌+ℤ◌, ◌-ℤ◌}
use tp_sistemas_operativos.Comandos.{ok, agotado}
use tp_sistemas_operativos.Wire.Bytes.{Buffer}
use tp_sistemas_operativos.Ejemplos.Sac.{bits}
use tp_sistemas_operativos.Ejemplos.SacNodos.{rutas, diccionarios, disco, nodo}
use tp_sistemas_operativos.Sac.Disco.{Disco, Gfile, Cadena}
use tp_sistemas_operativos.Sac.Ordenes.{a_uint32, a_int}
use tp_sistemas_operativos.Sac.Nodos.{
  mismo_texto, es_el_nodo_buscado, buscar_desde, buscar_nodo_por_nombre, bloque_de_nodo, bajar,
  determinar, determine_nodo,
}
use tp_sistemas_operativos.Sac.Lectura.{leer_archivo}
use tp_sistemas_operativos.Sac.Lectura.Punteros.{contenido_de}
use tp_sistemas_operativos.Sac.Lectura.Contenido.{leer_archivo-contenido}
use tp_sistemas_operativos.Sac.Escritura.{Escribe, Servidor, escribir_bucle, escribir_archivo}
use tp_sistemas_operativos.Sac.Escritura.Rondas.{escribir_bucle-no_termina}
use tp_sistemas_operativos.Sac.Escritura.RoundTrip.{leer_archivo-escribir_archivo}

-- The disk with a size of the file, whose first two blocks are 1501 and 1502.
abbrev con_archivo : ℕ → Disco ⦃c = bits⦄
con_archivo size =
    let g : Gfile = record (nodo 1 102 3) {
      file_size = size;
      indirect_blocks_array = λ i. if i == 0 then 1500 else 0;
    } in
    record disco {
      tabla_de_nodos = put disco.tabla_de_nodos 2 g;
      bloques = λ b i. if b == 1500 then 1501 + i else 0;
      datos = λ i. i;
    }

-- "/d/e/f".
abbrev path_f : Cadena
path_f = 47 ∷ 100 ∷ 47 ∷ 101 ∷ 47 ∷ 102 ∷ []

encontrado : (size : ℕ) → determine_nodo ⦃c = bits⦄ ⦃r = rutas⦄ (con_archivo size) path_f ≡ pos 2
unfolding determine_nodo determinar bajar bloque_de_nodo buscar_nodo_por_nombre buscar_desde
    es_el_nodo_buscado mismo_texto a_uint32 ◌+ℤ◌ ◌-ℤ◌
encontrado size = refl

leer_archivo-contenido_example :
    (m : ℕ) × (b : Buffer) × (leer_archivo ⦃c = bits⦄ ⦃r = rutas⦄
        (λ i. 0)
        path_f
        6000
        4096
        (con_archivo 5000)
      ≡ ok (m, b) (con_archivo 5000))
    × (m ≡ 904)
    × ((j : ℕ) → j < m → b j ≡ contenido_de ⦃c = bits⦄ (con_archivo 5000) 2 (4096 + j))
leer_archivo-contenido_example =
    leer_archivo-contenido ⦃c = bits⦄ ⦃r = rutas⦄ (con_archivo 5000) path_f 2 6000 4096 (λ i. 0)
      (encontrado 5000) (omega arith) refl (omega arith) (omega arith)

abbrev servidor_f : Servidor ⦃c = bits⦄ ⦃k = diccionarios⦄
servidor_f = record {
  disco = con_archivo 0;
  diccionario_de_mutex = [];
  mutexes = λ n. false;
  proximo_mutex = 1;
}

leer_archivo-escribir_archivo_example :
    (s' : Servidor ⦃c = bits⦄ ⦃k = diccionarios⦄) × (b' : Buffer) × (escribir_archivo ⦃c = bits⦄
        ⦃k = diccionarios⦄ ⦃r = rutas⦄ 2
        (7 ∷ 8 ∷ 9 ∷ [])
        path_f
        3
        0
        servidor_f
      ≡ ok (a_int 3) s')
    × (leer_archivo ⦃c = bits⦄ ⦃r = rutas⦄ (λ i. 0) path_f 3 0 s'.disco ≡ ok (3, b') s'.disco)
    × ((j : ℕ) → j < 3 → b' j ≡ get_or (7 ∷ 8 ∷ 9 ∷ []) j 0)
leer_archivo-escribir_archivo_example =
    leer_archivo-escribir_archivo ⦃c = bits⦄ ⦃k = diccionarios⦄ ⦃r = rutas⦄ 2 servidor_f path_f 2 3
      (7 ∷ 8 ∷ 9 ∷ []) (λ i. 0) (omega arith) (encontrado 0) (omega arith) (inl refl) refl refl
      (omega arith) (omega arith)

abbrev tres_bytes : Escribe
tres_bytes = record {
  off = 100;
  tam = 3;
  offset_in_block = 100;
  buffer = 7 ∷ 8 ∷ 9 ∷ [];
  respuesta = pos 3;
}

escribir_bucle-no_termina_example :
    escribir_bucle ⦃c = bits⦄ 50 2 tres_bytes (con_archivo 4096) ≡ agotado
escribir_bucle-no_termina_example =
    escribir_bucle-no_termina ⦃c = bits⦄ 50 (con_archivo 4096) 2 tres_bytes refl (omega arith)
      (omega arith) (omega arith)
