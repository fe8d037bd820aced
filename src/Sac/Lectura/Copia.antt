-- ===== src/Sac/Lectura/Copia.antt =====
-- What the copies of `leer_archivo` in filesystem/sac_handlers.c put into the buffer, one block of
-- pointers at a time.
use tp_sistemas_operativos.Base.{
  ℕ, zero, suc, ◌+◌, ◌-◌, ◌≤◌, ◌<◌, ◌≡◌, sym, ap, ◌∙◌, false, inl, inr, ◌==◌, ltb, if◌then◌else◌,
  arith, Bool-cases,
}
use tp_sistemas_operativos.Wire.Bytes.{Buffer, write_bytes, read_bytes, write_bytes-outside}

-- From `b` to `b'` the `n` bytes from `at` on have become those of `f`, and those in front of them
-- are as they were.
abbrev pub Copiado : (ℕ → ℕ) → ℕ → ℕ → Buffer → Buffer → Type 0
Copiado f at n b b' = ((j : ℕ) → j < n → b' (at + j) ≡ f j) × ((x : ℕ) → x < at → b' x ≡ b x)

pub Copiado-trans :
    (f g : ℕ → ℕ) (at n m : ℕ) (b c d : Buffer)
    → Copiado f at n b c
    → Copiado g (at + n) m c d
    → ((j : ℕ) → j < m → g j ≡ f (n + j))
    → Copiado f at (n + m) b d
Copiado-trans f g at n m b c d h k e = (
  λ j p. elim (Bool-cases (ltb j n)) [
    | inl t ↦ k.1 (at + j) (ground (arith, t)) ∙ h.0 j (ground (arith, t))
    | inr t ↦
        let q : n ≤ j = detras j t in
        ap d (omega (arith, q))
        ∙ k.0 (j - n) (omega (arith, p, q))
        ∙ e (j - n) (omega (arith, p, q))
        ∙ ap f (omega (arith, q))
  ],
  λ x p. k.1 x (omega (arith, p)) ∙ h.1 x p,
)
  where
    detras : (j : ℕ) → ltb j n ≡ false → n ≤ j
    detras j t = ground (arith, t)

write-read_bytes :
    (n : ℕ) (b dat : Buffer) (at de j : ℕ)
    → j < n
    → write_bytes b at (read_bytes dat de n) (at + j) ≡ dat (de + j)
unfolding write_bytes read_bytes
write-read_bytes zero b dat at de j h = absurd (omega (arith, h))
write-read_bytes (suc n) b dat at de zero h = ground (
  arith,
  write_bytes-outside (λ i. if i == at then dat de else b i) (at + 1) (read_bytes dat (de + 1) n)
      at,
  ap dat (suma_cero de),
  ap (write_bytes (λ i. if i == at then dat de else b i) (at + 1) (read_bytes dat (de + 1) n))
      (suma_cero at),
)
  where
    suma_cero : (x : ℕ) → x + 0 ≡ x
    suma_cero x = omega arith
write-read_bytes (suc n) b dat at de (suc j) h =
    ap (write_bytes (λ i. if i == at then dat de else b i) (at + 1) (read_bytes dat (de + 1) n))
      (mover at j)
    ∙ write-read_bytes n (λ i. if i == at then dat de else b i) dat (at + 1) (de + 1) j
        (omega (arith, h))
    ∙ ap dat (sym (mover de j))
  where
    mover : (x j : ℕ) → x + suc j ≡ x + 1 + j
    mover x j = omega arith

pub Copiado-write :
    (n : ℕ) (b dat : Buffer) (at de : ℕ)
    → Copiado (λ j. dat (de + j)) at n b (write_bytes b at (read_bytes dat de n))
Copiado-write n b dat at de = (
  λ j h. write-read_bytes n b dat at de j h,
  λ x h. write_bytes-outside b at (read_bytes dat de n) x (inl h),
)
