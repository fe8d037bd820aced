-- ===== src/Sac/Escritura/RoundTrip.antt =====
-- What `escribir_archivo` of filesystem/sac_handlers.c writes, `leer_archivo` reads.
use tp_sistemas_operativos.Base.{
  ℕ, zero, suc, put, ◌+◌, ◌*◌, ◌-◌, ◌/◌, ◌%◌, ◌≤◌, ◌<◌, ◌≡◌, refl, ap, ◌∙◌, true, false, List, [],
  ◌∷◌, ◌==◌, ==_refl, leb, if◌then◌else◌, arith, length, get_or,
}
use tp_sistemas_operativos.Base.Int.{ℤ, pos}
use tp_sistemas_operativos.Comandos.{ok, gets, modify, pure, and_then, ◌>>=◌, ◌>>◌}
use tp_sistemas_operativos.Comandos.Eval.{bind-ok, then-ok, if-false}
use tp_sistemas_operativos.Wire.Bytes.{Buffer, write_bytes, write_bytes-outside}
use tp_sistemas_operativos.Sac.Disco.{
  Bitarrays, Rutas, Disco, Cadena, bloque_size, blkindirect, max_number_of_files,
}
use tp_sistemas_operativos.Sac.Bloques.{con_nodo, setear_posicion}
use tp_sistemas_operativos.Sac.Ordenes.{a_int, cambiar_nodo, nodo_valido, nodo_valido-ok}
use tp_sistemas_operativos.Sac.Nodos.{determine_nodo}
use tp_sistemas_operativos.Sac.Nodos.Igual.{
  MismosNodos, MismosNodos-trans, con_nodo-MismosNodos, determine_nodo-igual,
}
use tp_sistemas_operativos.Sac.Nodos.Crear.{leer_reloj}
use tp_sistemas_operativos.Sac.Lectura.{leer_archivo}
use tp_sistemas_operativos.Sac.Lectura.Bloques.{menor}
use tp_sistemas_operativos.Sac.Lectura.Punteros.{contenido_de}
use tp_sistemas_operativos.Sac.Lectura.Contenido.{leer_archivo-contenido}
use tp_sistemas_operativos.Sac.Escritura.{
  Dictionaries, Servidor, con_disco, en_disco, mutex_de, tomar_mutex, soltar_mutex, completa,
  menos_efbig, ubicar_bloque, salir_de_escribir, escribir_en_nodo, escribir_archivo,
}
use tp_sistemas_operativos.Sac.Escritura.Mutexes.{MutexLibre, tomar_mutex-ok, mutex_de-ok}
use tp_sistemas_operativos.Sac.Escritura.Rondas.{tamano_de}
use tp_sistemas_operativos.Sac.Escritura.Primera.{con_bytes, escribir_bucle-primera}

-- A byte of a list that was written.
write_bytes-get_or :
    (xs : List ℕ) (b : Buffer) (at j : ℕ)
    → j < length xs
    → write_bytes b at xs (at + j) ≡ get_or xs j 0
unfolding write_bytes
write_bytes-get_or [] b at j h = absurd (omega (arith, h))
write_bytes-get_or (x ∷ xs) b at zero h = ground (
  arith,
  write_bytes-outside (λ i. if i == at then x else b i) (at + 1) xs at,
  ap (write_bytes (λ i. if i == at then x else b i) (at + 1) xs) (suma_cero at),
)
  where
    suma_cero : (x : ℕ) → x + 0 ≡ x
    suma_cero x = omega arith
write_bytes-get_or (x ∷ xs) b at (suc j) h =
    ap (write_bytes (λ i. if i == at then x else b i) (at + 1) xs) (mover at j)
    ∙ write_bytes-get_or xs (λ i. if i == at then x else b i) (at + 1) j (omega (arith, h))
  where
    mover : (x j : ℕ) → x + suc j ≡ x + 1 + j
    mover x j = omega arith

module _ ⦃c : Bitarrays⦄ ⦃k : Dictionaries⦄ ⦃r : Rutas⦄ where
  open r use {time}

  -- The disk after the first write.
  abbrev escrito : Disco → ℕ → List ℕ → ℕ → Disco
  escrito d n buffer size =
      let d1 = con_bytes d n buffer size in
      let d2 = record d1 { lecturas_reloj = suc d.lecturas_reloj } in
      con_nodo d2 n (record (d2.tabla_de_nodos n) { modify_date = time d.lecturas_reloj })

  salir-ok :
      (s : Servidor) (d : Disco) (n m size : ℕ) (buffer : List ℕ)
      → salir_de_escribir n m size completa (record s { disco = con_bytes d n buffer size })
        ≡ ok
            (a_int size)
            (record s { disco = escrito d n buffer size; mutexes = put s.mutexes m false })
  unfolding salir_de_escribir en_disco leer_reloj cambiar_nodo soltar_mutex modify pure ◌>>=◌ ◌>>◌
  salir-ok s d n m size buffer = refl

  escribir_en_nodo-primera :
      (tope : ℕ) (s : Servidor) (n m size : ℕ) (buffer : List ℕ)
      → tamano_de s.disco n ≡ 0
      → length buffer ≡ size
      → 0 < size
      → size ≤ bloque_size
      → escribir_en_nodo (suc (suc tope)) buffer size 0 m n s
        ≡ ok
            (a_int size)
            (record s { disco = escrito s.disco n buffer size; mutexes = put s.mutexes m false })
  unfolding escribir_en_nodo ◌>>=◌ gets en_disco
  escribir_en_nodo-primera tope s n m size buffer v l p q =
      if-false _ (pure menos_efbig) _ s (cabe (tamano_de s.disco n) size v q)
      ∙ ap (λ z. and_then (con_disco s z) (salir_de_escribir n m size))
          (escribir_bucle-primera tope s.disco n size buffer (a_int size) v l p q)
      ∙ salir-ok s s.disco n m size buffer
    where
      cabe :
          (f t : ℕ)
          → f ≡ 0
          → t ≤ bloque_size
          → leb (blkindirect * 1024 * bloque_size) (f + t) ≡ false
      cabe f t a b = ground (arith, a, b)

  escrito-MismosNodos :
      (d : Disco) (n size : ℕ) (buffer : List ℕ) → MismosNodos d (escrito d n buffer size)
  escrito-MismosNodos d n size buffer =
      let dw = record d {
        datos = write_bytes d.datos (ubicar_bloque d n 0 * bloque_size) buffer;
      } in
      let d1 = con_bytes d n buffer size in
      let d2 = record d1 { lecturas_reloj = suc d.lecturas_reloj } in
      MismosNodos-trans d d1 (escrito d n buffer size)
        (con_nodo-MismosNodos dw n (record (d.tabla_de_nodos n) { file_size = size }) refl refl
          refl)
        (con_nodo-MismosNodos d2 n
          (record (d2.tabla_de_nodos n) { modify_date = time d.lecturas_reloj }) refl refl refl)

  escrito-tamano :
      (d : Disco) (n size : ℕ) (buffer : List ℕ) → tamano_de (escrito d n buffer size) n ≡ size
  escrito-tamano d n size buffer = ground (arith, ==_refl n)

  -- A byte of the first block after the write.
  escrito-contenido :
      (d : Disco) (n size j : ℕ) (buffer : List ℕ)
      → length buffer ≡ size
      → size ≤ bloque_size
      → j < size
      → contenido_de (escrito d n buffer size) n (0 + j) ≡ get_or buffer j 0
  unfolding setear_posicion ubicar_bloque
  escrito-contenido d n size j buffer l q h =
      let arr = ((escrito d n buffer size).tabla_de_nodos n).indirect_blocks_array in
      let mismo : arr ≡ (d.tabla_de_nodos n).indirect_blocks_array = rw (==_refl n) refl in
      let a : (0 + j) / 4194304 ≡ 0 = omega (arith, h, q) in
      let b : (0 + j) % 4194304 / 4096 ≡ 0 = omega (arith, h, q) in
      let e : (0 + j) % 4096 ≡ j = omega (arith, h, q) in
      (λ i. (escrito d n buffer size).datos (d.bloques (mismo i (a i)) (b i) * bloque_size + e i))
      ∙ write_bytes-get_or buffer d.datos (ubicar_bloque d n 0 * bloque_size) j
          (omega (arith, h, l))

  valido :
      (s : Servidor) (z : ℤ) (n : ℕ)
      → z ≡ pos n
      → n < max_number_of_files
      → en_disco (nodo_valido z) s ≡ ok n s
  unfolding en_disco
  valido s z n e h =
      ap (λ x. con_disco s (nodo_valido x s.disco)) e
      ∙ ap (con_disco s) (nodo_valido-ok n s.disco h)

  escribir_archivo-pasos :
      (tope : ℕ) (s u : Servidor) (path : Cadena) (n m size : ℕ) (buffer : List ℕ)
      → determine_nodo s.disco path ≡ pos n
      → n < max_number_of_files
      → mutex_de path s ≡ ok m u
      → u.mutexes m ≡ false
      → tamano_de u.disco n ≡ 0
      → length buffer ≡ size
      → 0 < size
      → size ≤ bloque_size
      → let u' : Servidor = record u { mutexes = put u.mutexes m true } in
        escribir_archivo (suc (suc tope)) buffer path size 0 s
        ≡ ok
            (a_int size)
            (record u' { disco = escrito u.disco n buffer size; mutexes = put u'.mutexes m false })
  unfolding escribir_archivo ◌>>=◌ gets
  escribir_archivo-pasos tope s u path n m size buffer e h em lm v l p q =
      let u' : Servidor = record u { mutexes = put u.mutexes m true } in
      let nodo = determine_nodo s.disco path in
      let resto = escribir_en_nodo (suc (suc tope)) buffer size 0 in
      bind-ok (mutex_de path)
        (λ mutex. tomar_mutex mutex >> (en_disco (nodo_valido nodo) >>= resto mutex)) s u m em
      ∙ then-ok (tomar_mutex m) (en_disco (nodo_valido nodo) >>= resto m) u u' tt
          (tomar_mutex-ok u m lm)
      ∙ bind-ok (en_disco (nodo_valido nodo)) (resto m) u' u' n (valido u' nodo n e h)
      ∙ escribir_en_nodo-primera tope u' n m size buffer v l p q

  -- A write of 1 to 4096 bytes to the start of a file of size 0 that `determine_nodo` finds, whose
  -- mutex is free: with two rounds or more `escribir_archivo` returns the size, and then
  -- `leer_archivo` from the start returns the size and puts the bytes that were written into the
  -- buffer.
  pub leer_archivo-escribir_archivo :
      (tope : ℕ) (s : Servidor) (path : Cadena) (n size : ℕ) (buffer : List ℕ) (b : Buffer)
      → 2 ≤ tope
      → determine_nodo s.disco path ≡ pos n
      → n < max_number_of_files
      → MutexLibre s path
      → tamano_de s.disco n ≡ 0
      → length buffer ≡ size
      → 0 < size
      → size ≤ bloque_size
      → (s' : Servidor) × (b' : Buffer) × (escribir_archivo tope buffer path size 0 s
          ≡ ok (a_int size) s')
        × (leer_archivo b path size 0 s'.disco ≡ ok (size, b') s'.disco)
        × ((j : ℕ) → j < size → b' j ≡ get_or buffer j 0)
  leer_archivo-escribir_archivo zero s path n size buffer b t e h libre v l p q =
      absurd (omega (arith, t))
  leer_archivo-escribir_archivo (suc zero) s path n size buffer b t e h libre v l p q =
      absurd (omega (arith, t))
  leer_archivo-escribir_archivo (suc (suc tope)) s path n size buffer b t e h libre v l p q =
      let (m, u, em, lm, dm) = mutex_de-ok s path libre in
      let u' : Servidor = record u { mutexes = put u.mutexes m true } in
      let d' = escrito u.disco n buffer size in
      let fin : Servidor = record u' { disco = d'; mutexes = put u'.mutexes m false } in
      let tam = escrito-tamano u.disco n size buffer in
      let r =
        leer_archivo-contenido d' path n size 0 b
          (determine_nodo-igual u.disco d' path (escrito-MismosNodos u.disco n size buffer)
            ∙ ap (λ d. determine_nodo d path) dm
            ∙ e)
          h refl p (omega (arith, tam, q)) in
      let largo : r.0 ≡ size = r.3 ∙ ap (λ z. menor size (z - 0)) tam ∙ todo size in
      (
        fin,
        r.1,
        escribir_archivo-pasos tope s u path n m size buffer e h em lm
            (ap (λ d. tamano_de d n) dm ∙ v) l p q,
        r.2 ∙ ap (λ z. ok (z, r.1) d') largo,
        λ j x. r.4 j (omega (arith, x, largo)) ∙ escrito-contenido u.disco n size j buffer l q x,
      )
    where
      todo : (z : ℕ) → menor z (z - 0) ≡ z
      todo z = ground arith
