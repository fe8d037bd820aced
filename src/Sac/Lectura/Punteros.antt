-- ===== src/Sac/Lectura/Punteros.antt =====
-- What the loop over the blocks of pointers of `leer_archivo` in filesystem/sac_handlers.c copies.
use tp_sistemas_operativos.Base.{
  ℕ, zero, suc, ◌+◌, ◌*◌, ◌-◌, ◌/◌, ◌%◌, ◌≤◌, ◌<◌, ◌≡◌, refl, sym, ap, subst, ◌∙◌, Bool, true,
  false, ltb, arith,
}
use tp_sistemas_operativos.Wire.Bytes.{Buffer}
use tp_sistemas_operativos.Sac.Disco.{Bitarrays, Disco, bloque_size}
use tp_sistemas_operativos.Sac.Agregar.{bloque_de}
use tp_sistemas_operativos.Sac.Lectura.{Lee, leer_bloques, leer_punteros}
use tp_sistemas_operativos.Sac.Lectura.Copia.{Copiado, Copiado-trans}
use tp_sistemas_operativos.Sac.Lectura.Bloques.{
  byte_de, Leido, menor, leer_bloques-Leido, leer_bloques-salto,
}

module _ ⦃c : Bitarrays⦄ where
  -- The byte of a file at an offset.
  abbrev pub contenido_de : Disco → ℕ → ℕ → ℕ
  contenido_de d nodo x = d.datos (bloque_de d nodo x * bloque_size + x % bloque_size)

  Copiado-igual :
      (f g : ℕ → ℕ) (at n : ℕ) (b b' : Buffer)
      → ((j : ℕ) → j < n → f j ≡ g j)
      → Copiado f at n b b'
      → Copiado g at n b b'
  Copiado-igual f g at n b b' e (h, k) = (λ j p. h j p ∙ e j p, k)

  -- In the block of pointers `i` a byte of the file is one of its blocks.
  contenido_de-bloque :
      (d : Disco) (nodo i y : ℕ)
      → y < bloque_size * 1024
      → byte_de d ((d.tabla_de_nodos nodo).indirect_blocks_array i) y
        ≡ contenido_de d nodo (i * (bloque_size * 1024) + y)
  contenido_de-bloque d nodo i y h =
      let arr = (d.tabla_de_nodos nodo).indirect_blocks_array in
      let a : i ≡ (i * 4194304 + y) / 4194304 = omega (arith, h) in
      let b : y / 4096 ≡ (i * 4194304 + y) % 4194304 / 4096 = omega (arith, h) in
      let e : y % 4096 ≡ (i * 4194304 + y) % 4096 = omega arith in
      λ k. d.datos (d.bloques (arr (a k)) (b k) * bloque_size + e k)

  -- The bytes that a call of the inner loop gives, as bytes of the file.
  Leido-contenido :
      (d : Disco) (nodo i o n : ℕ) (l l' : Lee)
      → o + n ≤ bloque_size * 1024
      → Leido d ((d.tabla_de_nodos nodo).indirect_blocks_array i) o n l l'
      → Copiado
          (λ j. contenido_de d nodo (i * (bloque_size * 1024) + o + j))
          l.cursor
          n
          l.buffer
          l'.buffer
  Leido-contenido d nodo i o n l l' h (z, t, cu, k) =
      Copiado-igual _ _ l.cursor n l.buffer l'.buffer
        (λ j p.
          contenido_de-bloque d nodo i (o + j) (omega (arith, h, p))
          ∙ ap (contenido_de d nodo) (omega arith))
        k

  -- From an aligned offset on, the loops of `q` blocks of pointers copy the bytes of the file.
  abbrev pub Copia : ℕ → Disco → ℕ → ℕ → Type 0
  Copia q d nodo i =
      (l : Lee)
      → l.offset % bloque_size ≡ 0
      → 0 < l.tamanio
      → l.offset + l.tamanio ≤ q * (bloque_size * 1024)
      → Copiado (λ j. contenido_de d nodo (i * (bloque_size * 1024) + l.offset + j)) l.cursor
          l.tamanio l.buffer (leer_punteros d nodo i q l).buffer

  -- What the inner loop does with an aligned offset.
  abbrev cuantos : Lee → ℕ
  cuantos l = menor l.tamanio ((1024 - l.offset / bloque_size) * bloque_size)

  leer_bloques-alineado :
      (d : Disco) (bloque : ℕ) (l : Lee)
      → l.offset % bloque_size ≡ 0
      → l.offset ≤ bloque_size * 1024
      → Leido d bloque l.offset (cuantos l) l (leer_bloques d bloque 0 1024 l)
  leer_bloques-alineado d bloque l a h =
      let k = l.offset / bloque_size in
      let l0 = record l { offset = 0 } in
      let e =
        leer_bloques-salto k d bloque 0 (1024 - k) 1024 0 l (omega (arith, h)) (omega (arith, a)) in
      subst (Leido d bloque l.offset (cuantos l) l) (sym e) (
        subst (λ z. Leido d bloque z (cuantos l) l (leer_bloques d bloque (0 + k) (1024 - k) l0))
          (omega (arith, a))
          (leer_bloques-Leido (1024 - k) d bloque (0 + k) (cuantos l) l0 refl refl))

  todo :
      (t o n : ℕ)
      → n ≡ menor t ((1024 - o / bloque_size) * bloque_size)
      → o ≤ bloque_size * 1024
      → o % bloque_size ≡ 0
      → o + n ≤ bloque_size * 1024
  todo t o n e h a = ground (arith, e, h, a)

  lleno :
      (t o n u : ℕ)
      → n ≡ menor t ((1024 - o / bloque_size) * bloque_size)
      → o ≤ bloque_size * 1024
      → o % bloque_size ≡ 0
      → suc u + n ≡ t
      → o + n ≡ bloque_size * 1024
  lleno t o n u e h a g = ground (arith, e, h, a, g)

  tras_bloque :
      (q : ℕ) (d : Disco) (nodo i n : ℕ) (l l' : Lee)
      → Copia q d nodo (i + 1)
      → l.offset % bloque_size ≡ 0
      → l.offset + l.tamanio ≤ suc q * (bloque_size * 1024)
      → l.offset ≤ bloque_size * 1024
      → n ≡ cuantos l
      → Leido d ((d.tabla_de_nodos nodo).indirect_blocks_array i) l.offset n l l'
      → (t : ℕ) → l'.tamanio ≡ t
      → let seguir : ℕ → Lee = elim [ zero ↦ l' | suc u ↦ leer_punteros d nodo (i + 1) q l' ] in
        Copiado
          (λ j. contenido_de d nodo (i * (bloque_size * 1024) + l.offset + j))
          l.cursor
          l.tamanio
          l.buffer
          (seguir t).buffer
  tras_bloque q d nodo i n l l' ih a h o e k zero g =
      subst
        (λ z.
          Copiado (λ j. contenido_de d nodo (i * (bloque_size * 1024) + l.offset + j)) l.cursor z
            l.buffer l'.buffer)
        (omega (arith, k.1, g))
        (Leido-contenido d nodo i l.offset n l l' (todo l.tamanio l.offset n e o a) k)
  tras_bloque q d nodo i n l l' ih a h o e k (suc u) g =
      let f : ℕ → ℕ = λ j. contenido_de d nodo (i * (bloque_size * 1024) + l.offset + j) in
      let fin : l.offset + n ≡ bloque_size * 1024 =
        lleno l.tamanio l.offset n u e o a (omega (arith, k.1, g)) in
      let cola =
        ih l' (ap (λ z. z % bloque_size) (k.0)) (omega (arith, g))
          (omega (arith, k.0, k.1, h, fin)) in
      let g2 : ℕ → ℕ = λ j. contenido_de d nodo ((i + 1) * (bloque_size * 1024) + l'.offset + j) in
      let final = (leer_punteros d nodo (i + 1) q l').buffer in
      subst (λ z. Copiado f l.cursor z l.buffer final) (omega (arith, k.1))
        (Copiado-trans f g2 l.cursor n l'.tamanio l.buffer l'.buffer final
          (Leido-contenido d nodo i l.offset n l l' (todo l.tamanio l.offset n e o a) k)
          (subst (λ z. Copiado g2 z l'.tamanio l'.buffer final) (k.2) cola)
          (λ j p. ap (contenido_de d nodo) (omega (arith, fin, k.0))))

  leer_punteros-suc :
      (q : ℕ) (d : Disco) (nodo i : ℕ) (l : Lee)
      → Copia q d nodo (i + 1)
      → l.offset % bloque_size ≡ 0
      → 0 < l.tamanio
      → l.offset + l.tamanio ≤ suc q * (bloque_size * 1024)
      → (b : Bool) → ltb (bloque_size * 1024) l.offset ≡ b
      → let l' = leer_bloques d ((d.tabla_de_nodos nodo).indirect_blocks_array i) 0 1024 l in
        let seguir : Bool → Lee = elim [
          | true ↦
              leer_punteros d nodo (i + 1) q (record l { offset = l.offset - bloque_size * 1024 })
          | false ↦ elim (l'.tamanio) [ zero ↦ l' | suc t ↦ leer_punteros d nodo (i + 1) q l' ]
        ] in
        Copiado
          (λ j. contenido_de d nodo (i * (bloque_size * 1024) + l.offset + j))
          l.cursor
          l.tamanio
          l.buffer
          (seguir b).buffer
  leer_punteros-suc q d nodo i l ih a p h true g =
      let l1 = record l { offset = l.offset - bloque_size * 1024 } in
      let lejos : bloque_size * 1024 < l.offset = ground (arith, g) in
      Copiado-igual (λ j. contenido_de d nodo ((i + 1) * (bloque_size * 1024) + l1.offset + j))
        (λ j. contenido_de d nodo (i * (bloque_size * 1024) + l.offset + j)) l.cursor l.tamanio
        l.buffer (leer_punteros d nodo (i + 1) q l1).buffer
        (λ j x. ap (contenido_de d nodo) (omega (arith, lejos)))
        (ih l1 (omega (arith, a, lejos)) p (omega (arith, h, lejos)))
  leer_punteros-suc q d nodo i l ih a p h false g =
      let bloque = (d.tabla_de_nodos nodo).indirect_blocks_array i in
      let cerca : l.offset ≤ bloque_size * 1024 = ground (arith, g) in
      tras_bloque q d nodo i (cuantos l) l (leer_bloques d bloque 0 1024 l) ih a h cerca refl
        (leer_bloques-alineado d bloque l a cerca) _ refl

  pub leer_punteros-Copia : (q : ℕ) (d : Disco) (nodo i : ℕ) → Copia q d nodo i
  unfolding leer_punteros
  leer_punteros-Copia zero d nodo i l a p h = absurd (omega (arith, p, h))
  leer_punteros-Copia (suc q) d nodo i l a p h =
      leer_punteros-suc q d nodo i l (leer_punteros-Copia q d nodo (i + 1)) a p h _ refl
