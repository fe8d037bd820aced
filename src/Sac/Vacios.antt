-- ===== src/Sac/Vacios.antt =====
-- What `get_bloque_vacio` and `cantidad_bloques_libres` of filesystem/sac_handlers.c promise.
use mathlib.Core.Option.{some-injective}
use tp_sistemas_operativos.Base.{
  ℕ, zero, suc, ◌+◌, ◌≤◌, ◌<◌, ◌≡◌, refl, ap, sym, ◌∙◌, Bool, true, false, none, some, ◌==◌,
  if◌then◌else◌, arith,
}
use tp_sistemas_operativos.Base.Int.{pos, negsuc}
use tp_sistemas_operativos.Sac.Disco.{Bitarrays, Disco}
use tp_sistemas_operativos.Sac.Bloques.{
  buscar_vacio, get_bloque_vacio, contar_libres, cantidad_bloques_libres, bit_inicial,
  bits_de_datos,
}

module _ ⦃c : Bitarrays⦄ where
  open c use {Bits, bitarray_test_bit, bitarray_set_bit, bitarray_get_max_bit, test_set, max_set}

  contar_libres-contador :
      (b : Bits) (i q n : ℕ) → contar_libres b i q n ≡ n + contar_libres b i q 0
  unfolding contar_libres
  contar_libres-contador b i zero n = omega arith
  contar_libres-contador b i (suc q) n = ground (
    arith,
    contar_libres-contador b (i + 1) q n,
    contar_libres-contador b (i + 1) q (n + 1),
    contar_libres-contador b (i + 1) q 1,
  )

  pub buscar_vacio-lleno :
      (b : Bits) (i q : ℕ) → contar_libres b i q 0 ≡ 0 → buscar_vacio b i q ≡ i + q
  unfolding contar_libres buscar_vacio
  buscar_vacio-lleno b i zero h = omega arith
  buscar_vacio-lleno b i (suc q) h =
      ground (arith, buscar_vacio-lleno b (i + 1) q, contar_libres-contador b (i + 1) q 1, h)

  -- The bit found is in the range and free.
  pub buscar_vacio-libre :
      (b : Bits) (i q : ℕ)
      → 0 < contar_libres b i q 0
      → (i ≤ buscar_vacio b i q)
        × (buscar_vacio b i q < i + q)
        × (bitarray_test_bit b (buscar_vacio b i q) ≡ false)
  unfolding contar_libres buscar_vacio
  buscar_vacio-libre b i zero h = absurd (omega (arith, h))
  buscar_vacio-libre b i (suc q) h =
      paso (bitarray_test_bit b i) refl (buscar_vacio-libre b (i + 1) q) h
    where
      paso :
          (t : Bool)
          → bitarray_test_bit b i ≡ t
          → (0 < contar_libres b (i + 1) q 0
              → (i + 1 ≤ buscar_vacio b (i + 1) q)
                × (buscar_vacio b (i + 1) q < i + 1 + q)
                × (bitarray_test_bit b (buscar_vacio b (i + 1) q) ≡ false))
          → 0 < contar_libres b (i + 1) q (if t then 0 else 1)
          → (i ≤ (if t then buscar_vacio b (i + 1) q else i))
            × ((if t then buscar_vacio b (i + 1) q else i) < i + suc q)
            × (bitarray_test_bit b (if t then buscar_vacio b (i + 1) q else i) ≡ false)
      paso true e sigue g = (omega (arith, (sigue g).0), omega (arith, (sigue g).1), (sigue g).2)
      paso false e sigue g = (omega arith, omega arith, e)

  -- A bit in front of the range is not counted.
  contar_libres-antes :
      (b : Bits) (k i q n : ℕ)
      → k < i
      → contar_libres (bitarray_set_bit b k) i q n ≡ contar_libres b i q n
  unfolding contar_libres
  contar_libres-antes b k i zero n h = refl
  contar_libres-antes b k i (suc q) n h =
      contar_libres-antes b k (i + 1) q _ (omega (arith, h))
      ∙ ap (λ t. contar_libres b (i + 1) q (if t then n else n + 1)) igual
    where
      igual : bitarray_test_bit (bitarray_set_bit b k) i ≡ bitarray_test_bit b i
      igual = ground (arith, test_set b k i, h)

  -- With the bit that was found, one less is free.
  contar_libres-ocupado :
      (b : Bits) (i q : ℕ)
      → 0 < contar_libres b i q 0
      → contar_libres (bitarray_set_bit b (buscar_vacio b i q)) i q 0 + 1 ≡ contar_libres b i q 0
  unfolding contar_libres buscar_vacio
  contar_libres-ocupado b i zero h = absurd (omega (arith, h))
  contar_libres-ocupado b i (suc q) h =
      paso (bitarray_test_bit b i) refl (contar_libres-ocupado b (i + 1) q) h
    where
      igual :
          (k : ℕ)
          → i < k
          → bitarray_test_bit b i ≡ true
          → bitarray_test_bit (bitarray_set_bit b k) i ≡ true
      igual k g e = ground (arith, test_set b k i, g, e)

      puesto : bitarray_test_bit (bitarray_set_bit b i) i ≡ true
      puesto = ground (arith, test_set b i i)

      paso :
          (t : Bool)
          → bitarray_test_bit b i ≡ t
          → (0 < contar_libres b (i + 1) q 0
              → contar_libres (bitarray_set_bit b (buscar_vacio b (i + 1) q)) (i + 1) q 0 + 1
                ≡ contar_libres b (i + 1) q 0)
          → 0 < contar_libres b (i + 1) q (if t then 0 else 1)
          → let k = if t then buscar_vacio b (i + 1) q else i in
            contar_libres
                (bitarray_set_bit b k)
                (i + 1)
                q
                (if bitarray_test_bit (bitarray_set_bit b k) i then 0 else 1)
              + 1
            ≡ contar_libres b (i + 1) q (if t then 0 else 1)
      paso true e sigue g =
          rw
            (igual (buscar_vacio b (i + 1) q) (omega (arith, (buscar_vacio-libre b (i + 1) q g).0))
              e)
            (sigue g)
      paso false e sigue g = rw puesto (
          omega (
            arith,
            contar_libres-antes b i (i + 1) q 0 (omega arith),
            contar_libres-contador b (i + 1) q 1,
          ))

  -- The disk with one more block taken.
  abbrev pub ocupar : Disco → ℕ → Disco
  ocupar d k = record d { bitmap = bitarray_set_bit d.bitmap k }

  -- The number that `cantidad_bloques_libres` returns.
  abbrev pub libres : Disco → ℕ
  libres d = contar_libres d.bitmap (bit_inicial d) (bits_de_datos d) 0

  cantidad-libres :
      (d : Disco) → d.s_bitmap ≡ false → cantidad_bloques_libres d ≡ some (libres d, d)
  unfolding cantidad_bloques_libres
  cantidad-libres d h = rw h refl

  libres-cantidad :
      (d : Disco) (n : ℕ)
      → d.s_bitmap ≡ false
      → cantidad_bloques_libres d ≡ some (n, d)
      → libres d ≡ n
  libres-cantidad d n h e =
      ap (λ r. r.0) (some-injective (libres d, d) (n, d) (sym (cantidad-libres d h) ∙ e))

  get_bloque_vacio-hallado :
      (d : Disco) (k : ℕ)
      → d.s_bitmap ≡ false
      → buscar_vacio d.bitmap (bit_inicial d) (bits_de_datos d) ≡ k
      → k < bitarray_get_max_bit d.bitmap
      → get_bloque_vacio d ≡ some (pos k, ocupar d k)
  unfolding get_bloque_vacio
  get_bloque_vacio-hallado d k h e g = rw (h, e, distinto) refl
    where
      distinto : (k == bitarray_get_max_bit d.bitmap) ≡ false
      distinto = ground (arith, g)

  libres-ocupar :
      (d : Disco) (k : ℕ)
      → buscar_vacio d.bitmap (bit_inicial d) (bits_de_datos d) ≡ k
      → 0 < libres d
      → libres (ocupar d k) + 1 ≡ libres d
  libres-ocupar d k e g =
      rw (max_set d.bitmap k, ← e)
        (contar_libres-ocupado d.bitmap (bit_inicial d) (bits_de_datos d) g)

  -- If `s_bitmap` is free and some data block is too, then `get_bloque_vacio` gives back the mutex
  -- and returns the number of a data block that was free, which is now taken: one less is free.
  pub get_bloque_vacio-libre :
      (d : Disco) (n : ℕ)
      → d.s_bitmap ≡ false
      → cantidad_bloques_libres d ≡ some (suc n, d)
      → (k : ℕ) × (get_bloque_vacio d ≡ some (pos k, ocupar d k))
        × (bit_inicial d ≤ k)
        × (k < bitarray_get_max_bit d.bitmap)
        × (bitarray_test_bit d.bitmap k ≡ false)
        × (cantidad_bloques_libres (ocupar d k) ≡ some (n, ocupar d k))
  get_bloque_vacio-libre d n h e =
      let k = buscar_vacio d.bitmap (bit_inicial d) (bits_de_datos d) in
      let cuenta = libres-cantidad d (suc n) h e in
      let alguno : 0 < libres d = omega (arith, cuenta) in
      let r = buscar_vacio-libre d.bitmap (bit_inicial d) (bits_de_datos d) alguno in
      let tope : k < bitarray_get_max_bit d.bitmap = omega (arith, r.0, r.1) in
      let menos : libres (ocupar d k) ≡ n = omega (arith, libres-ocupar d k refl alguno, cuenta) in
      (
        k,
        get_bloque_vacio-hallado d k h refl tope,
        r.0,
        tope,
        r.2,
        cantidad-libres (ocupar d k) h ∙ ap (λ q. some (q, ocupar d k)) menos,
      )

  -- If `s_bitmap` is free and no data block is, and the data blocks start inside the bitmap, then
  -- `get_bloque_vacio` returns -1 with `s_bitmap` still taken, and the next call of
  -- `cantidad_bloques_libres` never returns.
  pub get_bloque_vacio-lleno :
      (d : Disco)
      → d.s_bitmap ≡ false
      → bit_inicial d ≤ bitarray_get_max_bit d.bitmap
      → cantidad_bloques_libres d ≡ some (0, d)
      → (get_bloque_vacio d ≡ some (negsuc 0, record d { s_bitmap = true }))
        × (cantidad_bloques_libres (record d { s_bitmap = true }) ≡ none)
  unfolding get_bloque_vacio cantidad_bloques_libres
  get_bloque_vacio-lleno d h g e = (rw (h, al_final, igual) refl, refl)
    where
      al_final :
          buscar_vacio d.bitmap (bit_inicial d) (bits_de_datos d) ≡ bitarray_get_max_bit d.bitmap
      al_final = omega (
        arith,
        buscar_vacio-lleno d.bitmap (bit_inicial d) (bits_de_datos d) (libres-cantidad d 0 h e),
        g,
      )

      igual : (bitarray_get_max_bit d.bitmap == bitarray_get_max_bit d.bitmap) ≡ true
      igual = ground arith
