-- ===== src/Muse/Metadata/Escritura.antt =====
-- `modificar_metadata` on a segment whose pages are in the main memory.
use tp_sistemas_operativos.Base.{
  ℕ, zero, suc, ◌+◌, ◌-◌, ◌*◌, ◌/◌, ◌%◌, ◌<◌, ◌≤◌, ◌≡◌, refl, ap, ◌∙◌, Bool, true, false, some,
  List, [], ◌∷◌, ◌++◌, arith, if◌then◌else◌, ltb, length, length-append, take,
}
use native.Mathlib.Nat.{mod-lt}
use tp_sistemas_operativos.Commons.{Ref, Lists}
use tp_sistemas_operativos.Comandos.{ok, modify}
use tp_sistemas_operativos.Comandos.Eval.{bind-ok, then-modify, then-ok}
use tp_sistemas_operativos.Muse.State.{Page, Segment, HeapMetadata, Muse}
use tp_sistemas_operativos.Muse.Run.{load_page}
use tp_sistemas_operativos.Muse.Run.Locks.{load_page-ok}
use tp_sistemas_operativos.Muse.Metadata.{
  bytes_de, asegurar, escribir_cortada, escribir_entera, modificar_metadata, u32,
}
use tp_sistemas_operativos.Muse.Metadata.Contigua.{pagina-debajo}
use tp_sistemas_operativos.Muse.Metadata.Residente.{Residente, asegurar-ok}
use tp_sistemas_operativos.Wire.Bytes.{Buffer, write_bytes, le_bytes, length-le_bytes}
use tp_sistemas_operativos.Muse.Metadata.Partes.{
  escribir-entera, escribir-cortada, pagina-siguiente,
}
use tp_sistemas_operativos.Base.Lists.{drop}
use tp_sistemas_operativos.Muse.Metadata.Refina.{marcos, segmento_bytes, en_segmento, cabeza}

take-drop : {A : Type 0} (n : ℕ) (xs : List A) → take n xs ++ drop n xs ≡ xs
take-drop zero xs = refl
take-drop (suc n) [] = refl
take-drop (suc n) (x ∷ xs) = ap (λ l. x ∷ l) (take-drop n xs)

length-take : {A : Type 0} (n : ℕ) (xs : List A) → n ≤ length xs → length (take n xs) ≡ n
length-take zero xs h = refl
length-take (suc n) [] h = omega arith
length-take (suc n) (x ∷ xs) h = omega (arith, length-take n xs (omega arith))

length-drop : {A : Type 0} (n : ℕ) (xs : List A) → length (drop n xs) ≡ length xs - n
length-drop zero xs = omega arith
length-drop (suc n) [] = omega arith
length-drop (suc n) (x ∷ xs) = omega (arith, length-drop n xs)

pub length-bytes_de : (h : HeapMetadata) → length (bytes_de h) ≡ 5
unfolding bytes_de
length-bytes_de h = omega (
  arith,
  length-append (le_bytes 4 h.size) ((if h.is_free then 1 else 0) ∷ []),
  length-le_bytes 4 h.size,
)

module _ ⦃c : Lists⦄ (tope : ℕ) (seg : Ref) (x : Segment) (pagina : ℕ → Page) (n : ℕ) where
  open c use {list_get}

  -- The memory in which a segment holds bytes that were written at `d`.
  abbrev pub Escrita : Muse → ℕ → List ℕ → Buffer → Type 0
  Escrita s d bytes mm =
      (k : ℕ)
      → k < n * s.page_size
      → segmento_bytes (record s { main_memory = mm }) pagina k
        ≡ write_bytes (segmento_bytes s pagina) d bytes k

  module _ (s : Muse) (d : ℕ) (nueva : HeapMetadata) (r : Residente s x pagina n)
      (h : 5 ≤ s.page_size) (k : d + 5 ≤ n * s.page_size) where
    escribir_cortada-ok :
        s.page_size < d % s.page_size + 5
        → (mm : Buffer) × (escribir_cortada tope x
              (d / s.page_size)
              (marcos pagina (d / s.page_size))
              (d % s.page_size)
              s.page_size
              nueva
              s
            ≡ ok tt (record s { main_memory = mm }))
          × Escrita s d (bytes_de nueva) mm
    unfolding escribir_cortada modify
    escribir_cortada-ok l =
        let q : ℕ = d / s.page_size in
        let i : q + 1 < n = pagina-siguiente s.page_size n d h k l in
        let ref : Ref = list_get x.page_table (q + 1) in
        let cortada : ℕ = s.page_size - d % s.page_size in
        let bytes : List ℕ = bytes_de nueva in
        let debajo : d % s.page_size < s.page_size = mod-lt d (omega arith) in
        (
          write_bytes
              (write_bytes s.main_memory (marcos pagina q + d % s.page_size) (take cortada bytes))
              (marcos pagina (q + 1)) (drop cortada bytes),
          then-ok (asegurar tope ref) _ s s tt (
                asegurar-ok tope ref s (pagina (q + 1)) (r.cargada (q + 1) i)
                  (r.presente (q + 1) i))
              ∙ bind-ok (load_page ref) _ s s (pagina (q + 1))
                  (load_page-ok ref s (pagina (q + 1)) (r.cargada (q + 1) i))
              ∙ then-modify _ _ s,
          λ j lj.
              escribir-cortada (marcos pagina) s.page_size n h r.separada d s.main_memory
                (take cortada bytes) (drop cortada bytes) j k lj l
                (length-take cortada bytes (omega (arith, length-bytes_de nueva, l)))
                (omega (arith, length-drop cortada bytes, length-bytes_de nueva))
              ∙ ap (λ b. write_bytes (segmento_bytes s pagina) d b j) (take-drop cortada bytes),
        )

    escribir_entera-ok :
        d % s.page_size + 5 ≤ s.page_size
        → (mm : Buffer) × (escribir_entera
              (marcos pagina (d / s.page_size) + d % s.page_size)
              nueva
              s
            ≡ ok tt (record s { main_memory = mm }))
          × Escrita s d (bytes_de nueva) mm
    unfolding escribir_entera modify
    escribir_entera-ok l = (
      write_bytes s.main_memory (marcos pagina (d / s.page_size) + d % s.page_size)
          (bytes_de nueva),
      refl,
      λ i li.
          escribir-entera (marcos pagina) s.page_size n h r.separada d s.main_memory
            (bytes_de nueva) i (omega (arith, k)) li (omega (arith, l, length-bytes_de nueva)),
    )

  module _ (s : Muse) (dir nuevo_size : ℕ) (libre : Bool) (hs : s.segments seg ≡ some x)
      (r : Residente s x pagina n) (h : 5 ≤ s.page_size)
      (k : en_segmento x dir + 5 ≤ n * s.page_size) where
    escribir :
        (b : Bool) (d : ℕ)
        → d ≡ en_segmento x dir
        → ltb s.page_size (d % s.page_size + 5) ≡ b
        → (nueva : HeapMetadata)
        → (mm : Buffer) × ((if b
                then escribir_cortada tope x
                    (d / s.page_size)
                    (marcos pagina (d / s.page_size))
                    (d % s.page_size)
                    s.page_size
                    nueva
                else escribir_entera (marcos pagina (d / s.page_size) + d % s.page_size) nueva)
              s
            ≡ ok tt (record s { main_memory = mm }))
          × Escrita s d (bytes_de nueva) mm
    escribir true d e f nueva =
        escribir_cortada-ok s d nueva r h (omega (arith, e, k)) (ground (arith, f))
    escribir false d e f nueva =
        escribir_entera-ok s d nueva r h (omega (arith, e, k)) (ground (arith, f))

    -- With the segment there, its `n` pages resident in frames of their own, pages of five bytes or
    -- more and the five bytes at the address inside these pages, `modificar_metadata` writes the five
    -- bytes of the segment at the address.
    pub modificar-refina :
        (mm : Buffer) × (modificar_metadata tope dir seg nuevo_size libre s
          ≡ ok tt (record s { main_memory = mm }))
        × Escrita s
            (en_segmento x dir)
            (bytes_de (record { size = u32 nuevo_size; is_free = libre }))
            mm
    unfolding modificar_metadata
    modificar-refina =
        let e =
          escribir (ltb s.page_size (en_segmento x dir % s.page_size + 5)) (en_segmento x dir) refl
            refl (record { size = u32 nuevo_size; is_free = libre }) in
        (
          e.0,
          cabeza tope seg x pagina n _ dir s hs r (
                pagina-debajo (marcos pagina) s.page_size n (en_segmento x dir) (omega arith)
                  (omega (arith, k)))
              ∙ e.1,
          e.2,
        )
