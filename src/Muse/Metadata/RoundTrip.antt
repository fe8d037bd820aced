-- ===== src/Muse/Metadata/RoundTrip.antt =====
-- `modificar_metadata` and then `buscar_metadata_por_direccion`, at one address and at two.
use tp_sistemas_operativos.Base.{
  ℕ, ◌+◌, ◌*◌, ◌^◌, ◌==◌, not, ◌<◌, ◌≤◌, ◌≡◌, ◌⊎◌, refl, ap, ap₂, sym, ◌∙◌, Bool, true, false, some,
  [], ◌∷◌, arith, if◌then◌else◌,
}
use native.Mathlib.Nat.{mod-lt}
use tp_sistemas_operativos.Commons.{Ref, Lists}
use tp_sistemas_operativos.Comandos.{ok}
use tp_sistemas_operativos.Muse.State.{Page, Segment, HeapMetadata, Muse}
use tp_sistemas_operativos.Muse.Metadata.{
  metadata_de, bytes_de, modificar_metadata, u32, buscar_metadata_por_direccion,
}
use tp_sistemas_operativos.Muse.Metadata.Residente.{Residente}
use tp_sistemas_operativos.Wire.Bytes.{
  Buffer, read_bytes, write_bytes, le_bytes, of_le, of_le-le_bytes, read_bytes-eq,
  read_bytes-outside, read-write_bytes,
}
use tp_sistemas_operativos.Muse.Metadata.Refina.{segmento_bytes, en_segmento, buscar-refina}
use tp_sistemas_operativos.Muse.Metadata.Escritura.{Escrita, length-bytes_de, modificar-refina}

bandera : (b : Bool) → not (of_le ((if b then 1 else 0) ∷ []) == 0) ≡ b
unfolding of_le
bandera true = refl
bandera false = refl

pub metadata_de-bytes_de : (h : HeapMetadata) → h.size < 2 ^ 32 → metadata_de (bytes_de h) ≡ h
unfolding metadata_de bytes_de le_bytes
metadata_de-bytes_de h l =
    ap₂ (λ (a : ℕ) (b : Bool). record { size = a; is_free = b })
      (of_le-le_bytes 4 h.size (omega (arith, l))) (bandera h.is_free)

module _ ⦃c : Lists⦄ (tope : ℕ) (seg : Ref) (x : Segment) (pagina : ℕ → Page) (n : ℕ) where
  -- After a write the segment is where it was.
  pub Residente-write :
      (s : Muse) (mm : Buffer)
      → Residente s x pagina n
      → Residente (record s { main_memory = mm }) x pagina n
  Residente-write s mm r = record {
    cargada = r.cargada;
    presente = r.presente;
    separada = r.separada;
  }

  -- The bytes at the place that was written, and those that a write spares.
  pub leer-Escrita :
      (s : Muse) (d : ℕ) (h : HeapMetadata) (mm : Buffer)
      → Escrita tope seg x pagina n s d (bytes_de h) mm
      → d + 5 ≤ n * s.page_size
      → read_bytes (segmento_bytes (record s { main_memory = mm }) pagina) d 5 ≡ bytes_de h
  leer-Escrita s d h mm e k =
      read_bytes-eq (segmento_bytes (record s { main_memory = mm }) pagina)
        (write_bytes (segmento_bytes s pagina) d (bytes_de h)) d 5 (λ i a b. e i (omega arith))
      ∙ ap (read_bytes (write_bytes (segmento_bytes s pagina) d (bytes_de h)) d)
          (sym (length-bytes_de h))
      ∙ read-write_bytes (segmento_bytes s pagina) d (bytes_de h)

  pub leer-otra :
      (s : Muse) (d o : ℕ) (h : HeapMetadata) (mm : Buffer)
      → Escrita tope seg x pagina n s d (bytes_de h) mm
      → o + 5 ≤ n * s.page_size
      → (o + 5 ≤ d) ⊎ (d + 5 ≤ o)
      → read_bytes (segmento_bytes (record s { main_memory = mm }) pagina) o 5
        ≡ read_bytes (segmento_bytes s pagina) o 5
  leer-otra s d o h mm e k sep =
      read_bytes-eq (segmento_bytes (record s { main_memory = mm }) pagina)
        (write_bytes (segmento_bytes s pagina) d (bytes_de h)) o 5 (λ i a b. e i (omega arith))
      ∙ read_bytes-outside (segmento_bytes s pagina) o 5 d (bytes_de h)
          (omega (arith, sep, length-bytes_de h))

  -- In a segment whose pages are in the main memory, `modificar_metadata` succeeds and changes
  -- nothing but bytes of the main memory. `buscar_metadata_por_direccion` reads the size, modulo 2
  -- ^ 32, and the flag back at the same address, also when the five bytes stand across two pages.
  -- At an address of the segment whose five bytes do not meet them it reads what it read before.
  pub modificar-buscar_metadata :
      (s : Muse) (dir otra nuevo_size : ℕ) (libre : Bool)
      → s.segments seg ≡ some x
      → Residente s x pagina n
      → 5 ≤ s.page_size
      → en_segmento x dir + 5 ≤ n * s.page_size
      → en_segmento x otra + 5 ≤ n * s.page_size
      → (en_segmento x otra + 5 ≤ en_segmento x dir) ⊎ (en_segmento x dir + 5 ≤ en_segmento x otra)
      → (mm : Buffer) × (m : HeapMetadata) × (modificar_metadata tope dir seg nuevo_size libre s
          ≡ ok tt (record s { main_memory = mm }))
        × (buscar_metadata_por_direccion tope dir seg (record s { main_memory = mm })
            ≡ ok
                (record { size = u32 nuevo_size; is_free = libre })
                (record s { main_memory = mm }))
        × (buscar_metadata_por_direccion tope otra seg s ≡ ok m s)
        × (buscar_metadata_por_direccion tope otra seg (record s { main_memory = mm })
            ≡ ok m (record s { main_memory = mm }))
  modificar-buscar_metadata s dir otra nuevo_size libre hs r h k l sep =
      let e = modificar-refina tope seg x pagina n s dir nuevo_size libre hs r h k in
      let mm : Buffer = e.0 in
      let s' : Muse = record s { main_memory = mm } in
      let r' = Residente-write s mm r in
      let nueva : HeapMetadata = record { size = u32 nuevo_size; is_free = libre } in
      (
        mm,
        metadata_de (read_bytes (segmento_bytes s pagina) (en_segmento x otra) 5),
        e.1,
        buscar-refina tope seg x pagina n s' dir hs r' h k
            ∙ ap (λ b. ok (metadata_de b) s') (leer-Escrita s (en_segmento x dir) nueva mm e.2 k)
            ∙ ap (λ m. ok m s') (metadata_de-bytes_de nueva (mod-lt nuevo_size (omega arith))),
        buscar-refina tope seg x pagina n s otra hs r h l,
        buscar-refina tope seg x pagina n s' otra hs r' h l
            ∙ ap (λ b. ok (metadata_de b) s')
                (leer-otra s (en_segmento x dir) (en_segmento x otra) nueva mm e.2 l sep),
      )
