-- ===== src/Sac/Agregar.antt =====
-- What `agregar_nodo` of filesystem/sac_handlers.c promises.
use tp_sistemas_operativos.Base.{
  ℕ, ◌*◌, ◌/◌, ◌%◌, ◌<◌, ◌^◌, ◌≡◌, ◌∙◌, refl, ap, sym, subst, Bool, true, false, Option, none, some,
  ◌==◌, ltb, ◌&&◌, not, if◌then◌else◌, arith,
}
use tp_sistemas_operativos.Base.Int.{ℤ, pos, negsuc}
use tp_sistemas_operativos.Sac.Disco.{
  Bitarrays, Disco, Gfile, bloque_size, punteros_a_bloques_datos,
}
use tp_sistemas_operativos.Sac.Escritura.{ubicar_bloque}
use tp_sistemas_operativos.Sac.Bloques.{
  setear_posicion, posicion_de_nodo, agregar_primero, agregar_en, agregar_nodo, apuntar,
  get_bloque_vacio, menos_enospc,
}

-- The number of the block of pointers, and the position in it, of an offset of any size.
abbrev pub lugar_de : ℕ → ℕ × ℕ
lugar_de offset = (
  offset / (bloque_size * punteros_a_bloques_datos),
  offset % (bloque_size * punteros_a_bloques_datos) / bloque_size,
)

setear_posicion-lugar : (offset : ℕ) → offset < 2 ^ 31 → setear_posicion offset ≡ lugar_de offset
unfolding setear_posicion
setear_posicion-lugar offset small = rw (entero, chico) refl
  where
    entero : offset % 2 ^ 32 ≡ offset
    entero = omega (arith, small)

    chico : ltb offset (2 ^ 31) ≡ true
    chico = ground (arith, small)

module _ ⦃c : Bitarrays⦄ where
  -- The block that holds an offset of a file: the loops of `leer_archivo` go there.
  abbrev pub bloque_de : Disco → ℕ → ℕ → ℕ
  bloque_de d nodo offset =
      let (numero, position) = lugar_de offset in
      d.bloques ((d.tabla_de_nodos nodo).indirect_blocks_array numero) position

  and-false : (b : Bool) → (b && false) ≡ false
  and-false true = refl
  and-false false = refl

  posicion_de_nodo-lugar :
      (g : Gfile) → g.file_size < 2 ^ 31 → posicion_de_nodo g ≡ lugar_de g.file_size
  unfolding posicion_de_nodo
  posicion_de_nodo-lugar g small =
      rw
        (
          setear_posicion-lugar g.file_size small,
          nunca,
          and-false (not (g.indirect_blocks_array (g.file_size / 4194304) == 0)),
        )
        refl
    where
      nunca : (g.file_size % 4194304 / 4096 == 1024) ≡ false
      nunca = ground arith

  -- A result that is a success has the block `numero_nodo` at a position of a node.
  abbrev Apunta : ℕ → ℕ → ℕ → ℕ → Option (ℤ × Disco) → Type 0
  Apunta nodo numero position numero_nodo none = Unit
  Apunta nodo numero position numero_nodo (some (negsuc e, d)) = Unit
  Apunta nodo numero position numero_nodo (some (pos r, d)) =
      (d.bloques ((d.tabla_de_nodos nodo).indirect_blocks_array numero) position ≡ numero_nodo)
      × (d.s_tabla_de_nodos ≡ false)

  agregar_primero-Apunta :
      (nodo numero_nodo numero : ℕ) (r : Option (ℤ × Disco))
      → Apunta nodo numero 0 numero_nodo (agregar_primero nodo numero_nodo numero r)
  unfolding agregar_primero
  agregar_primero-Apunta nodo numero_nodo numero none = tt
  agregar_primero-Apunta nodo numero_nodo numero (some (negsuc e, d)) = tt
  agregar_primero-Apunta nodo numero_nodo numero (some (pos bloque, d)) = (ground arith, refl)

  agregar_en-Apunta :
      (b : Bool) (d : Disco) (nodo numero_nodo numero position : ℕ) (r : Option (ℤ × Disco))
      → (position == 0) ≡ b
      → Apunta nodo numero position numero_nodo (
          if b
          then agregar_primero nodo numero_nodo numero r
          else some (
            pos 0,
            apuntar d ((d.tabla_de_nodos nodo).indirect_blocks_array numero) position numero_nodo,
          ))
  agregar_en-Apunta true d nodo numero_nodo numero position r e =
      subst (λ q. Apunta nodo numero q numero_nodo (agregar_primero nodo numero_nodo numero r))
        (sym cero) (agregar_primero-Apunta nodo numero_nodo numero r)
    where
      cero : position ≡ 0
      cero = ground (arith, e)
  agregar_en-Apunta false d nodo numero_nodo numero position r e = (ground arith, refl)

  agregar_en-posicion :
      (d : Disco) (nodo numero_nodo : ℕ) (p : ℕ × ℕ)
      → Apunta nodo p.0 p.1 numero_nodo (agregar_en d nodo numero_nodo p)
  unfolding agregar_en
  agregar_en-posicion d nodo numero_nodo (numero, position) =
      agregar_en-Apunta (position == 0) d nodo numero_nodo numero position (get_bloque_vacio d) refl

  salidas-Apunta :
      (tomado lleno : Bool) (d : Disco) (nodo numero_nodo numero position : ℕ)
      (r : Option (ℤ × Disco))
      → Apunta nodo numero position numero_nodo r
      → Apunta nodo numero position numero_nodo
          (if tomado then none else if lleno then some (menos_enospc, d) else r)
  salidas-Apunta true lleno d nodo numero_nodo numero position r h = tt
  salidas-Apunta false true d nodo numero_nodo numero position r h = tt
  salidas-Apunta false false d nodo numero_nodo numero position r h = h

  agregar_nodo-Apunta :
      (d : Disco) (nodo numero_nodo : ℕ)
      → (d.tabla_de_nodos nodo).file_size < 2 ^ 31
      → let (numero, position) = lugar_de (d.tabla_de_nodos nodo).file_size in
        Apunta nodo numero position numero_nodo (agregar_nodo d nodo numero_nodo)
  unfolding agregar_nodo
  agregar_nodo-Apunta d nodo numero_nodo small =
      let g = d.tabla_de_nodos nodo in
      let d' = record d { s_tabla_de_nodos = true } in
      salidas-Apunta _ _ d' nodo numero_nodo _ _
        (agregar_en d' nodo numero_nodo (posicion_de_nodo g))
        (subst
          (λ p.
            Apunta nodo (lugar_de g.file_size).0 (lugar_de g.file_size).1 numero_nodo
              (agregar_en d' nodo numero_nodo p))
          (sym (posicion_de_nodo-lugar g small))
          (agregar_en-posicion d' nodo numero_nodo (lugar_de g.file_size)))

  ubicar_bloque-lugar :
      (d : Disco) (nodo offset : ℕ)
      → offset < 2 ^ 31
      → ubicar_bloque d nodo offset ≡ bloque_de d nodo offset
  unfolding ubicar_bloque
  ubicar_bloque-lugar d nodo offset small =
      ap (λ p. d.bloques ((d.tabla_de_nodos nodo).indirect_blocks_array p.0) p.1)
        (setear_posicion-lugar offset small)

  -- When `agregar_nodo` returns 0 for a file of less than 2 ^ 31 bytes, the block stands where the
  -- loops of `leer_archivo` and the search of `escribir_archivo` look for the end of the file, and
  -- `s_tablaDeNodos` is free.
  pub agregar_nodo-encuentra :
      (d d' : Disco) (nodo numero_nodo : ℕ)
      → (d.tabla_de_nodos nodo).file_size < 2 ^ 31
      → agregar_nodo d nodo numero_nodo ≡ some (pos 0, d')
      → (bloque_de d' nodo (d.tabla_de_nodos nodo).file_size ≡ numero_nodo)
        × (ubicar_bloque d' nodo (d.tabla_de_nodos nodo).file_size ≡ numero_nodo)
        × (d'.s_tabla_de_nodos ≡ false)
  agregar_nodo-encuentra d d' nodo numero_nodo small e =
      let k : (bloque_de d' nodo (d.tabla_de_nodos nodo).file_size ≡ numero_nodo)
          × (d'.s_tabla_de_nodos ≡ false) =
        rw e at (agregar_nodo-Apunta d nodo numero_nodo small) in
      (k.0, ubicar_bloque-lugar d' nodo (d.tabla_de_nodos nodo).file_size small ∙ k.0, k.1)
