-- ===== src/Muse/Metadata/Partes.antt =====
-- A metadata that is cut between two pages, read and written in two parts.
use tp_sistemas_operativos.Base.{
  ℕ, ◌+◌, ◌-◌, ◌*◌, ◌/◌, ◌%◌, ◌<◌, ◌≤◌, ◌≡◌, ◌⊎◌, refl, ap, ap₂, sym, ◌∙◌, List, ◌++◌, arith, inl,
  inr, length,
}
use native.Mathlib.Nat.{div-add-mod', mod-lt, mul-le-mul_right}
use tp_sistemas_operativos.Muse.Metadata.Contigua.{
  Separados, contigua, pagina-debajo, read_bytes-contigua, write_bytes-contigua,
}
use tp_sistemas_operativos.Wire.Bytes.{
  Buffer, read_bytes, write_bytes, read_bytes-append, write_bytes-append, write_bytes-igual,
}

antes_o_despues : (n q : ℕ) → (n ≤ q) ⊎ (q < n)
antes_o_despues n q = omega arith

pub pagina-siguiente : (ps n d : ℕ) → 5 ≤ ps → d + 5 ≤ n * ps → ps < d % ps + 5 → d / ps + 1 < n
pagina-siguiente ps n d h k l = elim (antes_o_despues n (d / ps + 1)) [
  | inl a ↦ absurd (grind (arith, mul-le-mul_right ps a, div-add-mod' d ps))
  | inr b ↦ b
]

suma_cero : (n : ℕ) → n ≡ n + 0
suma_cero n = omega arith

module _ (fr : ℕ → ℕ) (ps : ℕ) (h : 5 ≤ ps) (mm : Buffer) (d : ℕ) where
  pub leer-entera :
      d % ps + 5 ≤ ps → read_bytes mm (fr (d / ps) + d % ps) 5 ≡ read_bytes (contigua mm fr ps) d 5
  leer-entera k =
      read_bytes-contigua fr ps mm (d / ps) (d % ps) 5 k
      ∙ ap (λ a. read_bytes (contigua mm fr ps) a 5) (div-add-mod' d ps)

  -- The next page starts where the first part ends.
  parte_2-lugar : (o : ℕ) → o < ps → d % ps ≡ o → (d / ps + 1) * ps + 0 ≡ d + (ps - o)
  parte_2-lugar o k e = grind (arith, div-add-mod' d ps)

  pub leer-cortada :
      ps < d % ps + 5
      → read_bytes mm (fr (d / ps) + d % ps) (ps - d % ps)
          ++ read_bytes mm (fr (d / ps + 1)) (5 - (ps - d % ps))
        ≡ read_bytes (contigua mm fr ps) d 5
  leer-cortada k =
      let o : ℕ = d % ps in
      let cortada : ℕ = ps - o in
      let debajo : o < ps = mod-lt d (omega arith) in
      ap₂ ◌++◌
        (read_bytes-contigua fr ps mm (d / ps) o cortada (omega arith)
          ∙ ap (λ a. read_bytes (contigua mm fr ps) a cortada) (div-add-mod' d ps))
        (ap (λ a. read_bytes mm a (5 - cortada)) (suma_cero (fr (d / ps + 1)))
          ∙ read_bytes-contigua fr ps mm (d / ps + 1) 0 (5 - cortada) (omega arith)
          ∙ ap (λ a. read_bytes (contigua mm fr ps) a (5 - cortada)) (parte_2-lugar o debajo refl))
      ∙ sym (read_bytes-append cortada (5 - cortada) (contigua mm fr ps) d)
      ∙ ap (read_bytes (contigua mm fr ps) d) (omega arith)

module _ (fr : ℕ → ℕ) (ps n : ℕ) (h : 5 ≤ ps) (sep : Separados fr ps n) (d : ℕ) where
  pub escribir-entera :
      (mm : Buffer) (xs : List ℕ) (k : ℕ)
      → d < n * ps
      → k < n * ps
      → d % ps + length xs ≤ ps
      → contigua (write_bytes mm (fr (d / ps) + d % ps) xs) fr ps k
        ≡ write_bytes (contigua mm fr ps) d xs k
  escribir-entera mm xs k hd hk l =
      write_bytes-contigua fr ps xs mm n k (d / ps) (d % ps) sep hk
        (pagina-debajo fr ps n d (omega arith) hd) l
      ∙ ap (λ a. write_bytes (contigua mm fr ps) a xs k) (div-add-mod' d ps)

  pub escribir-cortada :
      (mm : Buffer) (xs ys : List ℕ) (k : ℕ)
      → d + 5 ≤ n * ps
      → k < n * ps
      → ps < d % ps + 5
      → length xs ≡ ps - d % ps
      → length ys ≡ 5 - (ps - d % ps)
      → contigua
          (write_bytes (write_bytes mm (fr (d / ps) + d % ps) xs) (fr (d / ps + 1)) ys)
          fr
          ps
          k
        ≡ write_bytes (contigua mm fr ps) d (xs ++ ys) k
  escribir-cortada mm xs ys k hd hk l lx ly =
      let o : d % ps < ps = mod-lt d (omega arith) in
      let mm' : Buffer = write_bytes mm (fr (d / ps) + d % ps) xs in
      ap (λ a. contigua (write_bytes mm' a ys) fr ps k) (suma_cero (fr (d / ps + 1)))
      ∙ write_bytes-contigua fr ps ys mm' n k (d / ps + 1) 0 sep hk (pagina-siguiente ps n d h hd l)
          (omega (arith, ly, o))
      ∙ ap (λ a. write_bytes (contigua mm' fr ps) a ys k)
          (parte_2-lugar fr ps h mm d (d % ps) o refl ∙ ap (λ a. d + a) (sym lx))
      ∙ write_bytes-igual ys (contigua mm' fr ps) (write_bytes (contigua mm fr ps) d xs)
          (d + length xs) k (escribir-entera mm xs k (omega (arith, hd)) hk (omega (arith, lx, o)))
      ∙ ap (λ b. b k) (write_bytes-append xs (contigua mm fr ps) d ys)
