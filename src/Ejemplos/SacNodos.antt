-- ===== src/Ejemplos/SacNodos.antt =====
-- A table of nodes of SAC with the directories /d and /d/e and the file /d/e/f, and paths with their
-- names between slashes.
use tp_sistemas_operativos.Base.{
  ℕ, ◌+◌, ◌<◌, ◌≡◌, ◌≢◌, ◌↔◌, refl, ap, Bool, true, false, Option, none, some, List, [], ◌∷◌, ◌++◌,
  ◌==◌, ltb, get_or, arith, if◌then◌else◌, Bool-cases, inl, inr,
}
use tp_sistemas_operativos.Base.Int.{pos}
use tp_sistemas_operativos.Comandos.{ok}
use tp_sistemas_operativos.Wire.Message.{Function}
use tp_sistemas_operativos.Ejemplos.Sac.{bits}
use tp_sistemas_operativos.Sac.Disco.{Disco, Gfile, Rutas, Cadena}
use tp_sistemas_operativos.Sac.Nodos.{mismo_texto, determine_nodo}
use tp_sistemas_operativos.Sac.Nodos.Crear.{nodo_sin_uso}
use tp_sistemas_operativos.Sac.Nodos.Busqueda.{BienFormado}
use tp_sistemas_operativos.Sac.Nodos.Camino.{Llega, llega, determine_nodo-Llega}
use tp_sistemas_operativos.Sac.Nodos.Nuevo.{Ninguno}
use tp_sistemas_operativos.Sac.Nodos.Directorio.{Directorio, es_nodo}
use tp_sistemas_operativos.Sac.Borrar.{borrar_directorio}
use tp_sistemas_operativos.Sac.Borrar.Cambio.{sin_uso, Bajo}
use tp_sistemas_operativos.Sac.Borrar.Subarbol.{Alcanza, borrar_directorio-Alcanza}
use tp_sistemas_operativos.Sac.Escritura.{Dictionaries, Servidor}
use tp_sistemas_operativos.Sac.Servidor.{
  hasta_nul, arg_en, arg_uint32, enviar_respuesta_basica, function_rta_mkdir, function_rta_getattr,
}
use tp_sistemas_operativos.Sac.Servidor.Pedidos.{fuse_invoke_function}
use tp_sistemas_operativos.Sac.Servidor.Mkdir.{pedido, fuse_invoke_function-mkdir_getattr}

abbrev con_nombre : Cadena → List Cadena → List Cadena
con_nombre [] r = r
con_nombre (x ∷ xs) r = (x ∷ xs) ∷ r

-- The piece in front of the first slash, and the names behind it.
abbrev trozos : Cadena → Cadena × List Cadena
trozos [] = ([], [])
trozos (x ∷ xs) = let (p, r) = trozos xs in if x == 47 then ([], con_nombre p r) else (x ∷ p, r)

-- What stands in front of the last slash.
abbrev hasta_barra : Cadena → Option Cadena
hasta_barra [] = none
hasta_barra (x ∷ xs) = elim (hasta_barra xs) [
  | some p ↦ some (x ∷ p)
  | none ↦ if x == 47 then some [] else none
]

abbrev tras_barra : Cadena → Cadena → Cadena
tras_barra acc [] = acc
tras_barra acc (x ∷ xs) = if x == 47 then tras_barra [] xs else tras_barra (acc ++ x ∷ []) xs

abbrev directorio : Option Cadena → Cadena
directorio none = 46 ∷ []
directorio (some []) = 47 ∷ []
directorio (some (x ∷ xs)) = x ∷ xs

instance abbrev pub rutas : Rutas
rutas = record {
  string_split = λ p. let (q, r) = trozos p in con_nombre q r;
  dirname = λ p. directorio (hasta_barra p);
  basename = tras_barra [];
  time = λ n. 1000 + n;
}

abbrev buscar_clave : List (Cadena × ℕ) → Cadena → Option ℕ
buscar_clave [] k = none
buscar_clave ((j, v) ∷ m) k = if mismo_texto j k then some v else buscar_clave m k

abbrev hay : Option ℕ → Bool
hay none = false
hay (some v) = true

abbrev valor : Option ℕ → ℕ
valor none = 0
valor (some v) = v

instance abbrev pub diccionarios : Dictionaries
diccionarios = record {
  Dictionary = List (Cadena × ℕ);
  dictionary_has_key = λ m k. hay (buscar_clave m k);
  dictionary_get = λ m k. valor (buscar_clave m k);
  dictionary_put = λ m k v. (k, v) ∷ m;
}

abbrev pub nodo : ℕ → ℕ → ℕ → Gfile
nodo estado letra padre = record {
  state = estado;
  fname = letra ∷ [];
  parent_dir_block = padre;
  file_size = 0;
  create_date = 0;
  modify_date = 0;
  indirect_blocks_array = λ i. 0;
}

abbrev tabla : ℕ → Gfile
tabla n =
    if n == 0
    then nodo 2 100 0
    else if n == 1
    then nodo 2 101 2
    else if n == 2
    then nodo 1 102 3
    else nodo 0 0 5000

abbrev pub disco : Disco ⦃c = bits⦄
disco = record {
  tabla_de_nodos = tabla;
  bloques = λ b i. 0;
  datos = λ i. 0;
  bitmap = ((λ i. ltb i 1030), 2000);
  bloque_inicio_tabla_de_nodos = 2;
  bloque_inicio_datos = 1027;
  s_bitmap = false;
  s_tabla_de_nodos = false;
  lecturas_reloj = 0;
}

disco-BienFormado : BienFormado ⦃c = bits⦄ disco
disco-BienFormado = (
  omega arith,
  omega arith,
  λ n h u. ground (arith, u),
  λ padre nombre n m h g. ground (arith, h.1, h.2, g.1, g.2),
)

-- "/d/e".
abbrev path_de : Cadena
path_de = 47 ∷ 100 ∷ 47 ∷ 101 ∷ []

determine_nodo-Llega_example :
    (determine_nodo ⦃c = bits⦄ ⦃r = rutas⦄ disco path_de ≡ pos 1)
    ↔ Llega ⦃c = bits⦄ disco 0 ((100 ∷ []) ∷ (101 ∷ []) ∷ []) 1
determine_nodo-Llega_example =
    determine_nodo-Llega ⦃c = bits⦄ ⦃r = rutas⦄ disco path_de (100 ∷ []) ((101 ∷ []) ∷ []) 1
      disco-BienFormado refl

borrar_directorio-Alcanza_example :
    (d' : Disco ⦃c = bits⦄) × (borrar_directorio ⦃c = bits⦄ 1026 (pos 1) disco ≡ ok (pos 0) d')
    × (sin_uso ⦃c = bits⦄ d' 1 ≡ true)
    × ((j : ℕ) → j < 1024 → Alcanza ⦃c = bits⦄ disco 1 j → sin_uso ⦃c = bits⦄ d' j ≡ true)
    × ((j : ℕ)
        → j ≢ 1
        → ¬ Bajo ⦃c = bits⦄ disco (pos 1) j
        → d'.tabla_de_nodos j ≡ disco.tabla_de_nodos j)
borrar_directorio-Alcanza_example =
    borrar_directorio-Alcanza ⦃c = bits⦄ disco 1 1026 refl (omega arith) (omega arith)

-- "/d/x" with its NUL.
abbrev bytes_dx : List ℕ
bytes_dx = 47 ∷ 100 ∷ 47 ∷ 120 ∷ 0 ∷ []

abbrev path_dx : Cadena
path_dx = 47 ∷ 100 ∷ 47 ∷ 120 ∷ []

abbrev servidor : Servidor ⦃c = bits⦄ ⦃k = diccionarios⦄
servidor = record {
  disco = disco;
  diccionario_de_mutex = [];
  mutexes = λ n. false;
  proximo_mutex = 1;
}

Ninguno-x : Ninguno ⦃c = bits⦄ disco 2 (120 ∷ [])
Ninguno-x n h p e = elim (Bool-cases (n == 1)) [
  | inl g ↦ absurd (ground (arith, g, ap (λ l. get_or l 0 0) e))
  | inr g ↦ absurd (ground (arith, g, p))
]

tercero : nodo_sin_uso ⦃c = bits⦄ disco 0 1024 ≡ 3
unfolding nodo_sin_uso
tercero = refl

bytes_dx_texto : hasta_nul bytes_dx ≡ some path_dx
unfolding hasta_nul
bytes_dx_texto = refl

no_raiz : mismo_texto path_dx (47 ∷ []) ≡ false
unfolding mismo_texto
no_raiz = refl

en_d : Directorio ⦃c = bits⦄ disco ((100 ∷ []) ∷ []) 2 2
en_d = es_nodo {m = 0} (llega (omega arith, refl, refl, refl))

fuse_invoke_function-mkdir_getattr_example :
    (s' : Servidor ⦃c = bits⦄ ⦃k = diccionarios⦄) × (f : Function) × (fuse_invoke_function
        ⦃c = bits⦄ ⦃r = rutas⦄ ⦃k = diccionarios⦄ 7
        (pedido 25 bytes_dx)
        servidor
      ≡ ok (enviar_respuesta_basica (pos 0) function_rta_mkdir) s')
    × (fuse_invoke_function ⦃c = bits⦄ ⦃r = rutas⦄ ⦃k = diccionarios⦄ 7 (pedido 9 bytes_dx) s'
        ≡ ok f s')
    × (f.type ≡ function_rta_getattr)
    × (arg_en f.args 0 ≡ some (arg_uint32 16895))
fuse_invoke_function-mkdir_getattr_example =
    fuse_invoke_function-mkdir_getattr ⦃c = bits⦄ ⦃r = rutas⦄ ⦃k = diccionarios⦄ servidor 7 bytes_dx
      path_dx (120 ∷ []) ((100 ∷ []) ∷ []) 2 2 3 disco-BienFormado refl tercero (omega arith)
      bytes_dx_texto no_raiz refl refl en_d (omega arith) Ninguno-x Ninguno-x
