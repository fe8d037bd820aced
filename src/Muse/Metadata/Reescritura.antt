-- ===== src/Muse/Metadata/Reescritura.antt =====
-- Lists of blocks after a metadata is written.
use tp_sistemas_operativos.Base.{
  ℕ, ◌+◌, ◌*◌, ◌<◌, ◌≤◌, ◌≡◌, ◌⊎◌, ap, ◌∙◌, subst, List, [], ◌∷◌, ◌++◌, arith,
}
use tp_sistemas_operativos.Commons.{Ref, Lists}
use tp_sistemas_operativos.Muse.State.{Page, Segment, HeapMetadata, Muse}
use tp_sistemas_operativos.Muse.Metadata.{metadata_de, bytes_de}
use tp_sistemas_operativos.Muse.Metadata.Refina.{segmento_bytes}
use tp_sistemas_operativos.Muse.Metadata.Escritura.{Escrita, length-bytes_de}
use tp_sistemas_operativos.Muse.Metadata.Bloques.{total, EnBloques}
use tp_sistemas_operativos.Wire.Bytes.{Buffer, read_bytes-eq, write_bytes-outside}

-- Blocks depend on the bytes up to their end alone.
pub EnBloques-igual :
    (hs : List HeapMetadata) (b c : Buffer) (d : ℕ)
    → ((i : ℕ) → d ≤ i → i < d + total hs → c i ≡ b i)
    → EnBloques b d hs
    → EnBloques c d hs
EnBloques-igual [] b c d e h = tt
EnBloques-igual (k ∷ hs) b c d e h = (
  ap metadata_de (read_bytes-eq c b d 5 (λ i p q. e i p (omega (arith, q)))) ∙ h.0,
  EnBloques-igual hs b c (d + (5 + k.size)) (λ i p q. e i (omega (arith, p)) (omega (arith, q)))
      h.1,
)

pub EnBloques-partes :
    (xs ys : List HeapMetadata) (b : Buffer) (d : ℕ)
    → EnBloques b d (xs ++ ys)
    → EnBloques b d xs × EnBloques b (d + total xs) ys
EnBloques-partes [] ys b d h = (tt, subst (λ a. EnBloques b a ys) (omega arith) h)
EnBloques-partes (k ∷ xs) ys b d h =
    let r = EnBloques-partes xs ys b (d + (5 + k.size)) h.1 in
    ((h.0, r.0), subst (λ a. EnBloques b a ys) (omega arith) r.1)

pub EnBloques-append :
    (xs ys : List HeapMetadata) (b : Buffer) (d : ℕ)
    → EnBloques b d xs
    → EnBloques b (d + total xs) ys
    → EnBloques b d (xs ++ ys)
EnBloques-append [] ys b d h k = subst (λ a. EnBloques b a ys) (omega arith) k
EnBloques-append (m ∷ xs) ys b d h k = (
  h.0,
  EnBloques-append xs ys b (d + (5 + m.size)) h.1 (subst (λ a. EnBloques b a ys) (omega arith) k),
)

pub total-append : (xs ys : List HeapMetadata) → total (xs ++ ys) ≡ total xs + total ys
total-append [] ys = omega arith
total-append (h ∷ xs) ys = omega (arith, total-append xs ys)

module _ ⦃c : Lists⦄ (tope : ℕ) (seg : Ref) (x : Segment) (pagina : ℕ → Page) (n : ℕ) where
  pub Escrita-fuera :
      (s : Muse) (d : ℕ) (h : HeapMetadata) (mm : Buffer)
      → Escrita tope seg x pagina n s d (bytes_de h) mm
      → (i : ℕ) → i < n * s.page_size
      → (i < d) ⊎ (d + 5 ≤ i)
      → segmento_bytes (record s { main_memory = mm }) pagina i ≡ segmento_bytes s pagina i
  Escrita-fuera s d h mm e i l sep =
      e i l
      ∙ write_bytes-outside (segmento_bytes s pagina) d (bytes_de h) i
          (omega (arith, sep, length-bytes_de h))
