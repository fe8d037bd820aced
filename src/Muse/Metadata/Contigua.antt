-- ===== src/Muse/Metadata/Contigua.antt =====
-- The pages of a segment that are in the main memory, seen as one buffer: reads and writes that stay
-- in a page.
use native.Mathlib.Nat.{
  div-add-mod', mod-lt, div-lt_iff_lt-mul, mul-add-div_right, mul-add-mod_self_right, div-eq_of_lt,
  mod-eq_of_lt,
}
use tp_sistemas_operativos.Base.{
  ℕ, zero, suc, ◌+◌, ◌*◌, ◌/◌, ◌%◌, ◌<◌, ◌≤◌, ◌≡◌, ◌⊎◌, refl, ap, ap₂, sym, ◌∙◌, List, [], ◌∷◌,
  arith, inl, inr, ◌==◌, if◌then◌else◌, length,
}
use tp_sistemas_operativos.Wire.Bytes.{Buffer, read_bytes, write_bytes, write_bytes-igual}

-- Frames of `ps` bytes that do not overlap, for the pages below `n`.
abbrev pub Separados : (ℕ → ℕ) → ℕ → ℕ → Type 0
Separados fr ps n = (i j : ℕ) → i < n → j < n → i ≡ j ⊎ (fr i + ps ≤ fr j) ⊎ (fr j + ps ≤ fr i)

-- Where the byte `k` of a segment is in the main memory, and the segment as one buffer.
abbrev pub lugar : (ℕ → ℕ) → ℕ → ℕ → ℕ
lugar fr ps k = fr (k / ps) + k % ps

abbrev pub contigua : Buffer → (ℕ → ℕ) → ℕ → Buffer
contigua mm fr ps k = mm (lugar fr ps k)

mismo_test : (a b c d : ℕ) → (a ≡ b → c ≡ d) → (c ≡ d → a ≡ b) → (a == b) ≡ (c == d)
mismo_test a b c d f g = grind arith

module _ (fr : ℕ → ℕ) (ps : ℕ) where
  pub parte_alta : (q o : ℕ) → o < ps → (q * ps + o) / ps ≡ q
  parte_alta q o h =
      let p : 0 < ps = omega arith in omega (arith, mul-add-div_right p q o, div-eq_of_lt h)

  pub parte_baja : (q o : ℕ) → o < ps → (q * ps + o) % ps ≡ o
  parte_baja q o h = mul-add-mod_self_right q ps o ∙ mod-eq_of_lt h

  lugar-pagina : (q o : ℕ) → o < ps → lugar fr ps (q * ps + o) ≡ fr q + o
  lugar-pagina q o h = ap₂ (λ a b. fr a + b) (parte_alta q o h) (parte_baja q o h)

  pub pagina-debajo : (n k : ℕ) → 0 < ps → k < n * ps → k / ps < n
  pagina-debajo n k p h = (div-lt_iff_lt-mul p).1 h

  -- A page and an offset in it are the place of one byte only.
  lugar-uno :
      (n k q o : ℕ)
      → Separados fr ps n
      → k < n * ps
      → q < n
      → o < ps
      → lugar fr ps k ≡ fr q + o
      → k ≡ q * ps + o
  lugar-uno n k q o sep hk hq ho e =
      let p : 0 < ps = omega arith in
      let m : k % ps < ps = mod-lt k p in
      elim (sep (k / ps) q (pagina-debajo n k p hk) hq) [
        | inl i ↦ sym (div-add-mod' k ps) ∙ ap₂ (λ a b. a * ps + b) i (omega (arith, e, ap fr i))
        | inr (inl a) ↦ absurd (omega (arith, a, e, m))
        | inr (inr a) ↦ absurd (omega (arith, a, e, m))
      ]

  misma :
      (n k q o : ℕ)
      → Separados fr ps n
      → k < n * ps
      → q < n
      → o < ps
      → (lugar fr ps k == fr q + o) ≡ (k == q * ps + o)
  misma n k q o sep hk hq ho =
      mismo_test (lugar fr ps k) (fr q + o) k (q * ps + o) (lugar-uno n k q o sep hk hq ho)
        (λ e. ap (lugar fr ps) e ∙ lugar-pagina q o ho)

  -- A read that stays in a page.
  pub read_bytes-contigua :
      (mm : Buffer) (q o n : ℕ)
      → o + n ≤ ps
      → read_bytes mm (fr q + o) n ≡ read_bytes (contigua mm fr ps) (q * ps + o) n
  unfolding read_bytes
  read_bytes-contigua mm q o zero h = refl
  read_bytes-contigua mm q o (suc n) h = ap₂ ◌∷◌ (ap mm (sym (lugar-pagina q o (omega arith)))) (
      ap (λ a. read_bytes mm a n) (omega arith)
      ∙ read_bytes-contigua mm q (o + 1) n (omega arith)
      ∙ ap (λ a. read_bytes (contigua mm fr ps) a n) (omega arith))

  -- A write that stays in a page, seen from the byte `k` of the segment.
  pub write_bytes-contigua :
      (xs : List ℕ) (mm : Buffer) (n k q o : ℕ)
      → Separados fr ps n
      → k < n * ps
      → q < n
      → o + length xs ≤ ps
      → contigua (write_bytes mm (fr q + o) xs) fr ps k
        ≡ write_bytes (contigua mm fr ps) (q * ps + o) xs k
  unfolding write_bytes
  write_bytes-contigua [] mm n k q o sep hk hq ho = refl
  write_bytes-contigua (x ∷ xs) mm n k q o sep hk hq ho =
      let mm' : Buffer = λ i. if i == fr q + o then x else mm i in
      let junto : q * ps + (o + 1) ≡ q * ps + o + 1 = omega arith in
      ap (λ a. write_bytes mm' a xs (lugar fr ps k)) (omega arith)
      ∙ write_bytes-contigua xs mm' n k q (o + 1) sep hk hq (omega arith)
      ∙ ap (λ a. write_bytes (contigua mm' fr ps) a xs k) junto
      ∙ write_bytes-igual xs (contigua mm' fr ps)
          (λ i. if i == q * ps + o then x else contigua mm fr ps i) (q * ps + o + 1) k
          (ap (λ b. if b then x else mm (lugar fr ps k)) (misma n k q o sep hk hq (omega arith)))
