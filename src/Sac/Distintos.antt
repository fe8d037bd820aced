-- ===== src/Sac/Distintos.antt =====
-- No block of SAC is given twice.
use tp_sistemas_operativos.Base.{
  ℕ, zero, suc, ◌+◌, ◌≤◌, ◌≡◌, ◌≢◌, refl, sym, ap, ◌∙◌, Bool, true, false, Option, none, some,
  if◌then◌else◌, arith,
}
use tp_sistemas_operativos.Base.Int.{ℤ, pos, negsuc}
use tp_sistemas_operativos.Sac.Disco.{Bitarrays, Disco}
use tp_sistemas_operativos.Sac.Bloques.{
  buscar_vacio, get_bloque_vacio, contar_libres, bit_inicial, bits_de_datos,
}
use tp_sistemas_operativos.Sac.Vacios.{ocupar, buscar_vacio-lleno, buscar_vacio-libre}

module _ ⦃c : Bitarrays⦄ where
  open c use {Bits, bitarray_test_bit, bitarray_set_bit, bitarray_get_max_bit, test_set, max_set}

  -- The search ends in front of the end only at a free bit.
  buscar_vacio-antes :
      (b : Bits) (i q n : ℕ)
      → contar_libres b i q 0 ≡ n
      → buscar_vacio b i q ≢ i + q
      → bitarray_test_bit b (buscar_vacio b i q) ≡ false
  buscar_vacio-antes b i q zero e h = absurd (h (buscar_vacio-lleno b i q e))
  buscar_vacio-antes b i q (suc n) e h = (buscar_vacio-libre b i q (omega (arith, e))).2

  -- A block that was given was free, and is taken now.
  abbrev Entregado : Disco → Option (ℤ × Disco) → Type 0
  Entregado d none = Unit
  Entregado d (some (negsuc e, d')) = Unit
  Entregado d (some (pos k, d')) = (bitarray_test_bit d.bitmap k ≡ false) × (d' ≡ ocupar d k)

  rama-Entregado :
      (lleno : Bool) (d e : Disco) (k : ℕ)
      → (lleno ≡ false → bitarray_test_bit d.bitmap k ≡ false)
      → Entregado d (if lleno then some (negsuc 0, e) else some (pos k, ocupar d k))
  rama-Entregado true d e k h = tt
  rama-Entregado false d e k h = (h refl, refl)

  mutex-Entregado :
      (tomado : Bool) (d : Disco) (r : Option (ℤ × Disco))
      → Entregado d r
      → Entregado d (if tomado then none else r)
  mutex-Entregado true d r h = tt
  mutex-Entregado false d r h = h

  get_bloque_vacio-Entregado :
      (d : Disco) → bit_inicial d ≤ bitarray_get_max_bit d.bitmap → Entregado d (get_bloque_vacio d)
  unfolding get_bloque_vacio
  get_bloque_vacio-Entregado d g = mutex-Entregado d.s_bitmap d _ (
      rama-Entregado _ d _ _ λ e.
        buscar_vacio-antes d.bitmap (bit_inicial d) (bits_de_datos d) _ refl
          λ f. ground (arith, e, f, g))

  -- If the data blocks start inside the bitmap, two calls of `get_bloque_vacio` in a row that both
  -- succeed give different blocks.
  pub get_bloque_vacio-distintos :
      (d d1 d2 : Disco) (k1 k2 : ℕ)
      → bit_inicial d ≤ bitarray_get_max_bit d.bitmap
      → get_bloque_vacio d ≡ some (pos k1, d1)
      → get_bloque_vacio d1 ≡ some (pos k2, d2)
      → k1 ≢ k2
  get_bloque_vacio-distintos d d1 d2 k1 k2 g e f h =
      let uno = rw e at (get_bloque_vacio-Entregado d g) in
      let g1 : bit_inicial d1 ≤ bitarray_get_max_bit d1.bitmap =
        rw uno.1 (omega (arith, max_set d.bitmap k1, g)) in
      let dos = rw f at (get_bloque_vacio-Entregado d1 g1) in
      let puesto : bitarray_test_bit (bitarray_set_bit d.bitmap k1) k1 ≡ true =
        ground (arith, test_set d.bitmap k1 k1) in
      let tomado : bitarray_test_bit d1.bitmap k1 ≡ true =
        ap (λ x. bitarray_test_bit x.bitmap k1) uno.1 ∙ puesto in
      let libre : bitarray_test_bit d1.bitmap k1 ≡ false =
        ap (bitarray_test_bit d1.bitmap) h ∙ dos.0 in
      cc (sym tomado ∙ libre)
