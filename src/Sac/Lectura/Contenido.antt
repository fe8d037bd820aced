-- ===== src/Sac/Lectura/Contenido.antt =====
-- What `leer_archivo` of filesystem/sac_handlers.c promises.
use tp_sistemas_operativos.Base.{
  ℕ, ◌+◌, ◌*◌, ◌-◌, ◌%◌, ◌≤◌, ◌<◌, ◌≡◌, refl, ap, ◌∙◌, Bool, true, false, leb, arith,
}
use tp_sistemas_operativos.Base.Int.{pos}
use tp_sistemas_operativos.Comandos.{ok, gets, ◌>>=◌}
use tp_sistemas_operativos.Comandos.Eval.{bind-ok}
use tp_sistemas_operativos.Wire.Bytes.{Buffer}
use tp_sistemas_operativos.Sac.Disco.{
  Bitarrays, Rutas, Disco, Cadena, bloque_size, blkindirect, max_number_of_files,
}
use tp_sistemas_operativos.Sac.Ordenes.{nodo_valido, nodo_valido-ok}
use tp_sistemas_operativos.Sac.Nodos.{determine_nodo}
use tp_sistemas_operativos.Sac.Lectura.{Lee, leer_punteros, recortar, leer_nodo, leer_archivo}
use tp_sistemas_operativos.Sac.Lectura.Bloques.{menor}
use tp_sistemas_operativos.Sac.Lectura.Punteros.{contenido_de, leer_punteros-Copia}

module _ ⦃c : Bitarrays⦄ where
  -- The number of bytes that a read gives, and these bytes.
  abbrev LeidoDe : Disco → ℕ → ℕ → ℕ → ℕ × Buffer → Type 0
  LeidoDe d nodo size offset r =
      (r.0 ≡ menor size ((d.tabla_de_nodos nodo).file_size - offset))
      × ((j : ℕ) → j < r.0 → r.1 j ≡ contenido_de d nodo (offset + j))

  recortar-menor :
      (file_size size offset : ℕ)
      → offset < file_size
      → recortar file_size size offset ≡ menor size (file_size - offset)
  unfolding recortar
  recortar-menor file_size size offset h = ground (arith, h)

  leer_nodo-LeidoDe :
      (d : Disco) (nodo size offset : ℕ) (buffer : Buffer)
      → offset % bloque_size ≡ 0
      → 0 < size
      → (d.tabla_de_nodos nodo).file_size ≤ blkindirect * (bloque_size * 1024)
      → LeidoDe d nodo size offset (leer_nodo d nodo buffer size offset)
  unfolding leer_nodo
  leer_nodo-LeidoDe d nodo size offset buffer a p h = segun _ refl
    where
      cero : (j : ℕ) → j ≡ 0 + j
      cero j = omega arith

      ceros : (o j : ℕ) → 0 * (bloque_size * 1024) + o + j ≡ o + j
      ceros o j = omega arith

      segun :
          (b : Bool)
          → leb (d.tabla_de_nodos nodo).file_size offset ≡ b
          → let l : Lee = record {
            offset = offset;
            tamanio = recortar (d.tabla_de_nodos nodo).file_size size offset;
            cursor = 0;
            buffer = buffer;
          } in
            let seguir : Bool → ℕ × Buffer = elim [
              | true ↦ (0, buffer)
              | false ↦ (
                recortar (d.tabla_de_nodos nodo).file_size size offset,
                (leer_punteros d nodo 0 blkindirect l).buffer,
              )
            ] in
            LeidoDe d nodo size offset (seguir b)
      segun true g = (ground (arith, g, p), λ j x. absurd (omega (arith, x)))
      segun false g =
          let dentro : offset < (d.tabla_de_nodos nodo).file_size = ground (arith, g) in
          let r = recortar-menor (d.tabla_de_nodos nodo).file_size size offset dentro in
          let t = recortar (d.tabla_de_nodos nodo).file_size size offset in
          let l : Lee = record { offset = offset; tamanio = t; cursor = 0; buffer = buffer } in
          let m : menor size ((d.tabla_de_nodos nodo).file_size - offset) + offset
              ≤ (d.tabla_de_nodos nodo).file_size =
            ground (arith, dentro) in
          let n : 0 < menor size ((d.tabla_de_nodos nodo).file_size - offset) =
            ground (arith, dentro, p) in
          let k =
            leer_punteros-Copia blkindirect d nodo 0 l a (omega (arith, r, n))
              (omega (arith, r, m, h)) in
          (
            r,
            λ j x.
                ap (leer_punteros d nodo 0 blkindirect l).buffer (cero j)
                ∙ k.0 j x
                ∙ ap (contenido_de d nodo) (ceros offset j),
          )

module _ ⦃c : Bitarrays⦄ ⦃r : Rutas⦄ where
  -- A read of at least one byte, from an offset that is a multiple of the block, of a file that
  -- `determine_nodo` finds and whose size its blocks of pointers can hold: `leer_archivo` returns how
  -- many bytes there are from the offset on, `size` at most, and these bytes of the file are in the
  -- buffer; the disk is as it was.
  pub leer_archivo-contenido :
      (d : Disco) (path : Cadena) (n size offset : ℕ) (buffer : Buffer)
      → determine_nodo d path ≡ pos n
      → n < max_number_of_files
      → offset % bloque_size ≡ 0
      → 0 < size
      → (d.tabla_de_nodos n).file_size ≤ blkindirect * (bloque_size * 1024)
      → (m : ℕ) × (b : Buffer) × (leer_archivo buffer path size offset d ≡ ok (m, b) d)
        × (m ≡ menor size ((d.tabla_de_nodos n).file_size - offset))
        × ((j : ℕ) → j < m → b j ≡ contenido_de d n (offset + j))
  unfolding leer_archivo gets ◌>>=◌
  leer_archivo-contenido d path n size offset buffer e h a p f =
      let r = leer_nodo d n buffer size offset in
      let k = leer_nodo-LeidoDe d n size offset buffer a p f in (r.0, r.1, pasos, k.0, k.1)
    where
      pasos : leer_archivo buffer path size offset d ≡ ok (leer_nodo d n buffer size offset) d
      pasos =
          bind-ok (nodo_valido (determine_nodo d path))
            (λ m. gets λ d. leer_nodo d m buffer size offset) d d n
            (ap (λ z. nodo_valido z d) e ∙ nodo_valido-ok n d h)
