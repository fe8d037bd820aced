-- ===== src/Sac/Lectura/Bloques.antt =====
-- What the loop over one block of pointers of `leer_archivo` in filesystem/sac_handlers.c copies.
use tp_sistemas_operativos.Base.{
  ℕ, zero, suc, ◌+◌, ◌*◌, ◌-◌, ◌/◌, ◌%◌, ◌<◌, ◌≡◌, refl, sym, ap, subst, ◌∙◌, Bool, true, false,
  leb, if◌then◌else◌, arith,
}
use tp_sistemas_operativos.Sac.Disco.{Bitarrays, Disco, bloque_size}
use tp_sistemas_operativos.Sac.Lectura.{Lee, parte, copiar_de_bloque, leer_bloques}
use tp_sistemas_operativos.Sac.Lectura.Copia.{Copiado, Copiado-trans, Copiado-write}

cabe_parte : (t : ℕ) → t - parte t + parte t ≡ t
unfolding parte
cabe_parte t = ground arith

parte_limite : (t j : ℕ) → j < parte t → j < bloque_size
unfolding parte
parte_limite t j h = ground (arith, h)

cociente : (n j : ℕ) → j < bloque_size → n ≡ (n * bloque_size + j) / bloque_size
cociente n j h = omega (arith, h)

module _ ⦃c : Bitarrays⦄ where
  -- The byte at a place of the blocks of a block of pointers.
  abbrev pub byte_de : Disco → ℕ → ℕ → ℕ
  byte_de d bloque x = d.datos (d.bloques bloque (x / bloque_size) * bloque_size + x % bloque_size)

  -- What is left after `n` bytes were read from `x` on.
  abbrev pub Leido : Disco → ℕ → ℕ → ℕ → Lee → Lee → Type 0
  Leido d bloque x n l l' =
      (l'.offset ≡ 0)
      × (l'.tamanio + n ≡ l.tamanio)
      × (l'.cursor ≡ l.cursor + n)
      × Copiado (λ j. byte_de d bloque (x + j)) l.cursor n l.buffer l'.buffer

  -- As much as a block of pointers has behind a place.
  abbrev pub menor : ℕ → ℕ → ℕ
  menor a b = if leb a b then a else b

  copiar-Leido :
      (d : Disco) (bloque num : ℕ) (l : Lee)
      → l.offset ≡ 0
      → Leido d bloque (num * bloque_size) (parte l.tamanio) l (copiar_de_bloque d bloque num l)
  unfolding copiar_de_bloque
  copiar-Leido d bloque num l e = (
    refl,
    cabe_parte l.tamanio,
    refl,
    (
      λ j h.
          (Copiado-write (parte l.tamanio) l.buffer d.datos l.cursor
              (d.bloques bloque num * bloque_size + l.offset)).0
            j h
          ∙ ap d.datos (lugar j (parte_limite l.tamanio j h)),
      (Copiado-write (parte l.tamanio) l.buffer d.datos l.cursor
          (d.bloques bloque num * bloque_size + l.offset)).1,
    ),
  )
    where
      lugar :
          (j : ℕ)
          → j < bloque_size
          → d.bloques bloque num * bloque_size + l.offset + j
            ≡ d.bloques bloque ((num * bloque_size + j) / bloque_size) * bloque_size
              + (num * bloque_size + j) % bloque_size
      lugar j h = omega (arith, ap (d.bloques bloque) (cociente num j h), e, h)

  Leido-trans :
      (d : Disco) (bloque x n m : ℕ) (l l1 l2 : Lee)
      → Leido d bloque x n l l1
      → Leido d bloque (x + n) m l1 l2
      → Leido d bloque x (n + m) l l2
  Leido-trans d bloque x n m l l1 l2 (o, t, cu, k) (o2, t2, cu2, k2) = (
    o2,
    omega (arith, t, t2),
    omega (arith, cu, cu2),
    Copiado-trans (λ j. byte_de d bloque (x + j)) (λ j. byte_de d bloque (x + n + j)) l.cursor n m
        l.buffer l1.buffer l2.buffer k
        (subst (λ z. Copiado (λ j. byte_de d bloque (x + n + j)) z m l1.buffer l2.buffer) cu k2)
        (λ j h. ap (byte_de d bloque) (omega arith)),
  )

  -- A round at the start of a block copies it, and goes on if there is something left.
  leer_bloques-ronda :
      (d : Disco) (bloque num q : ℕ) (l : Lee)
      → l.offset ≡ 0
      → let seguir : ℕ → Lee = elim [
        | zero ↦ copiar_de_bloque d bloque num l
        | suc t ↦ leer_bloques d bloque (num + 1) q (copiar_de_bloque d bloque num l)
      ] in
        leer_bloques d bloque num (suc q) l ≡ seguir (copiar_de_bloque d bloque num l).tamanio
  unfolding leer_bloques
  leer_bloques-ronda d bloque num q l e =
      let segun : Bool → Lee = elim [
        | true ↦ leer_bloques d bloque (num + 1) q (record l { offset = l.offset - bloque_size })
        | false ↦ elim ((copiar_de_bloque d bloque num l).tamanio) [
          | zero ↦ copiar_de_bloque d bloque num l
          | suc t ↦ leer_bloques d bloque (num + 1) q (copiar_de_bloque d bloque num l)
        ]
      ] in
      let chico : leb bloque_size l.offset ≡ false = ground (arith, e) in ap segun chico

  todo : (t n q : ℕ) → n ≡ menor t (suc q * bloque_size) → t - parte t ≡ 0 → n ≡ parte t
  unfolding parte
  todo t n q e h = ground (arith, e, h)

  resto :
      (t n q u : ℕ)
      → n ≡ menor t (suc q * bloque_size)
      → t - parte t ≡ suc u
      → (parte t ≡ bloque_size) × (n ≡ parte t + menor (t - parte t) (q * bloque_size))
  unfolding parte
  resto t n q u e h = (ground (arith, h), ground (arith, e, h))

  -- From the start of a block on, the rounds copy what is asked for or all the blocks that are left.
  pub leer_bloques-Leido :
      (q : ℕ) (d : Disco) (bloque num n : ℕ) (l : Lee)
      → l.offset ≡ 0
      → n ≡ menor l.tamanio (q * bloque_size)
      → Leido d bloque (num * bloque_size) n l (leer_bloques d bloque num q l)
  unfolding leer_bloques
  leer_bloques-Leido zero d bloque num n l e h =
      let cero : n ≡ 0 = ground (arith, h) in
      (
        e,
        omega (arith, cero),
        omega (arith, cero),
        (λ j p. absurd (omega (arith, p, cero)), λ x p. refl),
      )
  leer_bloques-Leido (suc q) d bloque num n l e h =
      subst (Leido d bloque (num * bloque_size) n l) (sym (leer_bloques-ronda d bloque num q l e)) (
        segun (copiar_de_bloque d bloque num l) (copiar-Leido d bloque num l e)
          (λ m p.
            leer_bloques-Leido q d bloque (num + 1) m (copiar_de_bloque d bloque num l)
              ((copiar-Leido d bloque num l e).0) p)
          (copiar_de_bloque d bloque num l).tamanio refl)
    where
      segun :
          (k : Lee)
          → Leido d bloque (num * bloque_size) (parte l.tamanio) l k
          → ((m : ℕ)
              → m ≡ menor k.tamanio (q * bloque_size)
              → Leido d bloque ((num + 1) * bloque_size) m k (leer_bloques d bloque (num + 1) q k))
          → (t : ℕ) → k.tamanio ≡ t
          → let seguir : ℕ → Lee = elim [
            | zero ↦ k
            | suc u ↦ leer_bloques d bloque (num + 1) q k
          ] in
            Leido d bloque (num * bloque_size) n l (seguir t)
      segun k c ih zero g =
          subst (λ z. Leido d bloque (num * bloque_size) z l k)
            (sym (todo l.tamanio n q h (omega (arith, c.1, g)))) c
      segun k c ih (suc u) g =
          let queda : k.tamanio ≡ l.tamanio - parte l.tamanio = omega (arith, c.1) in
          let r = resto l.tamanio n q u h (sym queda ∙ g) in
          let m = menor (l.tamanio - parte l.tamanio) (q * bloque_size) in
          let f = ih m (ap (λ z. menor z (q * bloque_size)) (sym queda)) in
          subst (λ z. Leido d bloque (num * bloque_size) z l (leer_bloques d bloque (num + 1) q k))
            (sym (r.1))
            (Leido-trans d bloque (num * bloque_size) (parte l.tamanio) m l k _ c (
              subst (λ z. Leido d bloque z m k (leer_bloques d bloque (num + 1) q k))
                (omega (arith, r.0)) f))

  -- Blocks in front of the offset are passed over.
  pub leer_bloques-salto :
      (k : ℕ) (d : Disco) (bloque num q s o : ℕ) (l : Lee)
      → s ≡ k + q
      → l.offset ≡ k * bloque_size + o
      → leer_bloques d bloque num s l ≡ leer_bloques d bloque (num + k) q (record l { offset = o })
  unfolding leer_bloques
  leer_bloques-salto zero d bloque num q s o l e h =
      let p : num ≡ num + zero = omega arith in
      let g : s ≡ q = omega (arith, e) in
      let r : l.offset ≡ o = omega (arith, h) in
      λ i. leer_bloques d bloque (p i) (g i) (record l { offset = r i })
  leer_bloques-salto (suc k) d bloque num q zero o l e h = absurd (omega (arith, e))
  leer_bloques-salto (suc k) d bloque num q (suc s) o l e h =
      let l1 = record l { offset = l.offset - bloque_size } in
      let segun : Bool → Lee = elim [
        | true ↦ leer_bloques d bloque (num + 1) s l1
        | false ↦ elim ((copiar_de_bloque d bloque num l).tamanio) [
          | zero ↦ copiar_de_bloque d bloque num l
          | suc t ↦ leer_bloques d bloque (num + 1) s (copiar_de_bloque d bloque num l)
        ]
      ] in
      let grande : leb bloque_size l.offset ≡ true = ground (arith, h) in
      ap segun grande
      ∙ leer_bloques-salto k d bloque (num + 1) q s o l1 (omega (arith, e)) (omega (arith, h))
      ∙ ap (λ z. leer_bloques d bloque z q (record l { offset = o })) (omega arith)
